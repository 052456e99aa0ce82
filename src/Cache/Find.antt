-- ===== src/Cache/Find.antt =====
-- Looking blocks up in the list of src/modified/sys/cache.c, by position and by a walk.
use unix_like_operating_syst.Base.{
  ℕ, ◌≡◌, refl, ap, Bool, true, false, Option, none, some, List, [], ◌∷◌, ◌++◌, arith, ◌==◌,
  if◌then◌else◌, Bool-cases, inl, inr, All, sym, ◌∙◌, ==→eq, append_assoc, All-append,
}
use unix_like_operating_syst.Cache.{Block, Split, at_pos, behind, split_first}

-- The bytes of the first block for a position.
abbrev pub bytes_at : ℕ → List Block → Option (List ℕ)
bytes_at q [] = none
bytes_at q (b ∷ bs) = if b.pos == q then some b.buf else bytes_at q bs

abbrev pub or_else : Option (List ℕ) → Option (List ℕ) → Option (List ℕ)
or_else none o = o
or_else (some x) o = some x

-- No two blocks of the list are for one position.
abbrev pub Distinct : List Block → Type 0
Distinct [] = Unit
Distinct (b ∷ bs) = (bytes_at b.pos bs ≡ none) × Distinct bs

pub bytes_at-append :
    (q : ℕ) (xs ys : List Block) → bytes_at q (xs ++ ys) ≡ or_else (bytes_at q xs) (bytes_at q ys)
bytes_at-append q [] ys = refl
bytes_at-append q (b ∷ xs) ys = ground (arith, bytes_at-append q xs ys)

-- What a walk over a list has found.
abbrev pub Walk : (Block → Bool) → List Block → Split → Type 0
Walk test bs none = All (λ x. test x ≡ false) bs
Walk test bs (some (pre, b, post)) =
    (bs ≡ pre ++ (b ∷ post)) × (test b ≡ true) × All (λ x. test x ≡ false) pre

behind-Walk :
    (test : Block → Bool) (x : Block) (bs : List Block) (s : Split)
    → test x ≡ false
    → Walk test bs s
    → Walk test (x ∷ bs) (behind x s)
behind-Walk test x bs none f w = (f, w)
behind-Walk test x bs (some (pre, b, post)) f w = (ap (λ l. x ∷ l) w.0, w.1, (f, w.2))

pub split_first-Walk : (test : Block → Bool) (bs : List Block) → Walk test bs (split_first test bs)
unfolding split_first
split_first-Walk test [] = tt
split_first-Walk test (x ∷ bs) = elim (Bool-cases (test x)) [
  | inl t ↦ rw t (refl, t, tt)
  | inr f ↦ rw f (behind-Walk test x bs (split_first test bs) f (split_first-Walk test bs))
]

pub bytes_at-none :
    (q : ℕ) (bs : List Block) → All (λ x. at_pos q x ≡ false) bs → bytes_at q bs ≡ none
bytes_at-none q [] h = refl
bytes_at-none q (b ∷ bs) h = ground (arith, bytes_at-none q bs h.1)

-- Moving the block that a walk found to the tail changes what is found nowhere, if positions are
-- distinct and the moved block keeps its position and its bytes.
bytes_at_absent :
    (q : ℕ) (b : Block) (post : List Block)
    → bytes_at b.pos post ≡ none
    → or_else (bytes_at q post) (if b.pos == q then some b.buf else none) ≡ bytes_at q (b ∷ post)
bytes_at_absent q b post h = elim (Bool-cases (b.pos == q)) [
  | inl t ↦
      let e : b.pos ≡ q = ==→eq b.pos q t in rw (t, ap (λ (n : ℕ). bytes_at n post) (sym e) ∙ h)
  | inr f ↦ rw f (or_else-none (bytes_at q post))
]
  where
    or_else-none : (o : Option (List ℕ)) → or_else o none ≡ o
    or_else-none none = refl
    or_else-none (some x) = refl

pub bytes_at-move :
    (q : ℕ) (pre post : List Block) (b b' : Block)
    → Distinct (pre ++ (b ∷ post))
    → b'.pos ≡ b.pos
    → b'.buf ≡ b.buf
    → bytes_at q (pre ++ (post ++ (b' ∷ []))) ≡ bytes_at q (pre ++ (b ∷ post))
bytes_at-move q [] post b b' d ep eb =
    rw (bytes_at-append q post (b' ∷ []), ep, eb) (bytes_at_absent q b post d.0)
bytes_at-move q (x ∷ pre) post b b' d ep eb =
    ap (λ (o : Option (List ℕ)). if x.pos == q then some x.buf else o)
      (bytes_at-move q pre post b b' d.1 ep eb)

-- The same in place.
pub bytes_at-replace :
    (q : ℕ) (pre post : List Block) (b b' : Block)
    → b'.pos ≡ b.pos
    → b'.buf ≡ b.buf
    → bytes_at q (pre ++ (b' ∷ post)) ≡ bytes_at q (pre ++ (b ∷ post))
bytes_at-replace q [] post b b' ep eb = rw (ep, eb)
bytes_at-replace q (x ∷ pre) post b b' ep eb =
    ap (λ (o : Option (List ℕ)). if x.pos == q then some x.buf else o)
      (bytes_at-replace q pre post b b' ep eb)

-- A block for a new position may be linked at the tail.
pub Distinct-snoc :
    (bs : List Block) (b : Block)
    → Distinct bs
    → bytes_at b.pos bs ≡ none
    → Distinct (bs ++ (b ∷ []))
Distinct-snoc [] b d h = (refl, tt)
Distinct-snoc (x ∷ bs) b d h = elim (Bool-cases (x.pos == b.pos)) [
  | inl t ↦ cc (rw t at h)
  | inr f ↦
      let e : (b.pos == x.pos) ≡ false = ground arith in
      (rw (bytes_at-append x.pos bs (b ∷ []), d.0, e), Distinct-snoc bs b d.1 (rw f at h))
]

pub Distinct-move :
    (pre post : List Block) (b b' : Block)
    → Distinct (pre ++ (b ∷ post))
    → b'.pos ≡ b.pos
    → b'.buf ≡ b.buf
    → Distinct (pre ++ (post ++ (b' ∷ [])))
Distinct-move [] post b b' d ep eb = Distinct-snoc post b' d.1 (rw ep d.0)
Distinct-move (x ∷ pre) post b b' d ep eb =
    (bytes_at-move x.pos pre post b b' d.1 ep eb ∙ d.0, Distinct-move pre post b b' d.1 ep eb)

pub Distinct-replace :
    (pre post : List Block) (b b' : Block)
    → Distinct (pre ++ (b ∷ post))
    → b'.pos ≡ b.pos
    → b'.buf ≡ b.buf
    → Distinct (pre ++ (b' ∷ post))
Distinct-replace [] post b b' d ep eb = rw ep d
Distinct-replace (x ∷ pre) post b b' d ep eb =
    (bytes_at-replace x.pos pre post b b' ep eb ∙ d.0, Distinct-replace pre post b b' d.1 ep eb)

-- The position of a block of the list stands nowhere else in it.
pub Distinct-absent :
    (pre post : List Block) (v : Block)
    → Distinct (pre ++ (v ∷ post))
    → (bytes_at v.pos pre ≡ none) × (bytes_at v.pos post ≡ none)
Distinct-absent [] post v d = (refl, d.0)
Distinct-absent (x ∷ pre) post v d = elim (Bool-cases (x.pos == v.pos)) [
  | inl t ↦
      let e : (v.pos == x.pos) ≡ true = ground arith in
      absurd (
        none≢found (bytes_at x.pos pre) v.buf
          (rw e at (rw (bytes_at-append x.pos pre (v ∷ post)) at d.0)))
  | inr f ↦ rw f (Distinct-absent pre post v d.1)
]
  where
    none≢found : (o : Option (List ℕ)) (b : List ℕ) → ¬ (or_else o (some b) ≡ none)
    none≢found none b e = cc
    none≢found (some x) b e = cc

pub bytes_at_member :
    (pre post : List Block) (v : Block)
    → Distinct (pre ++ (v ∷ post))
    → bytes_at v.pos (pre ++ (v ∷ post)) ≡ some v.buf
bytes_at_member pre post v d =
    rw (bytes_at-append v.pos pre (v ∷ post), (Distinct-absent pre post v d).0) (ground arith)

-- Without a block, its position is found no more, and every other as before.
pub bytes_at-remove :
    (q : ℕ) (pre post : List Block) (v : Block)
    → Distinct (pre ++ (v ∷ post))
    → bytes_at q (pre ++ post) ≡ (if v.pos == q then none else bytes_at q (pre ++ (v ∷ post)))
bytes_at-remove q [] post v d = elim (Bool-cases (v.pos == q)) [
  | inl t ↦
      let e : v.pos ≡ q = ==→eq v.pos q t in rw t (ap (λ (n : ℕ). bytes_at n post) (sym e) ∙ d.0)
  | inr f ↦ rw f
]
bytes_at-remove q (x ∷ pre) post v d =
    ground (arith, bytes_at-remove q pre post v d.1, Distinct-absent (x ∷ pre) post v d)

pub Distinct-remove :
    (pre post : List Block) (v : Block) → Distinct (pre ++ (v ∷ post)) → Distinct (pre ++ post)
Distinct-remove [] post v d = d.1
Distinct-remove (x ∷ pre) post v d =
    (ground (arith, bytes_at-remove x.pos pre post v d.1), Distinct-remove pre post v d.1)

pub bytes_at_found :
    (q : ℕ) (pre post : List Block) (b : Block)
    → at_pos q b ≡ true
    → All (λ x. at_pos q x ≡ false) pre
    → bytes_at q (pre ++ (b ∷ post)) ≡ some b.buf
bytes_at_found q [] post b t h = rw t
bytes_at_found q (x ∷ pre) post b t h = rw h.0 (bytes_at_found q pre post b t h.1)

-- `All` over the lists that the operations build.
module _ {ℓ} (P : Block → Type ℓ) where
  pub All-middle :
      (pre post : List Block) (v : Block) → All P (pre ++ (v ∷ post)) → All P (pre ++ post) × P v
  All-middle [] post v h = (h.1, h.0)
  All-middle (x ∷ pre) post v h = let (rest, pv) = All-middle pre post v h.1 in ((h.0, rest), pv)

  pub All-insert :
      (pre post : List Block) (v : Block) → All P (pre ++ post) → P v → All P (pre ++ (v ∷ post))
  All-insert [] post v h pv = (pv, h)
  All-insert (x ∷ pre) post v h pv = (h.0, All-insert pre post v h.1 pv)

  pub All-move :
      (pre post : List Block) (b : Block)
      → All P (pre ++ post)
      → P b
      → All P (pre ++ (post ++ (b ∷ [])))
  All-move pre post b h pb = rw (← append_assoc) (All-append P (pre ++ post) (b ∷ []) h (pb, tt))

-- A walk stops at the first block that passes its test.
pub split_first-found :
    (test : Block → Bool) (pre post : List Block) (b : Block)
    → test b ≡ true
    → All (λ x. test x ≡ false) pre
    → split_first test (pre ++ (b ∷ post)) ≡ some (pre, b, post)
unfolding split_first
split_first-found test [] post b t h = rw t
split_first-found test (x ∷ pre) post b t h = rw (h.0, split_first-found test pre post b t h.1)

-- Distinctness looks at positions alone.
pub absent-replace :
    (q : ℕ) (pre post : List Block) (b b' : Block)
    → b'.pos ≡ b.pos
    → bytes_at q (pre ++ (b ∷ post)) ≡ none
    → bytes_at q (pre ++ (b' ∷ post)) ≡ none
absent-replace q [] post b b' e h = ground arith
absent-replace q (x ∷ pre) post b b' e h = ground (arith, absent-replace q pre post b b' e)

pub Distinct-relabel :
    (pre post : List Block) (b b' : Block)
    → Distinct (pre ++ (b ∷ post))
    → b'.pos ≡ b.pos
    → Distinct (pre ++ (b' ∷ post))
Distinct-relabel [] post b b' d e = rw e d
Distinct-relabel (x ∷ pre) post b b' d e =
    (absent-replace x.pos pre post b b' e d.0, Distinct-relabel pre post b b' d.1 e)
