-- ===== src/Memory/Pages/Alloc.antt =====
-- `alloc_phys_pages` of src/modified/sys/memory.c is a best fit, and hands out free pages only.
use mathlib.Core.Path.{subst}
use native.Mathlib.Nat.{le_refl}
use unix_like_operating_syst.Base.{
  ℕ, zero, suc, ◌+◌, ◌-◌, ◌≤◌, ◌<◌, ◌≡◌, refl, sym, ap, ◌∙◌, inl, inr, ◌&&◌, Option, none, some,
  List, [], ◌∷◌, arith, ltb, leb, ◌==◌, if◌then◌else◌, set, get_elem?, length, All, All-append,
  append-nil, append_assoc, length-append, get_elem?-append, get_elem?-length, All-get_elem?, ◌++◌,
  ◌↔◌, some_inj, Bool-cases, ==→eq,
}
use unix_like_operating_syst.Memory.Pages.{
  Chunk, is_better, scan, remove_at, carve, alloc_pages, free_page_count,
}
use unix_like_operating_syst.Memory.Pages.Owns.{
  in_range, owners, NoOverlap, in_range-split, owners-remove_at, owners-set,
}

-- A chunk that is no larger than any in a list that fits.
abbrev pub IsBestOf : ℕ → Chunk → List Chunk → Type 0
IsBestOf cnt b cs = All (λ c. cnt ≤ c.count → b.count ≤ c.count) cs

abbrev FitsNone : ℕ → List Chunk → Type 0
FitsNone cnt cs = All (λ c. c.count < cnt) cs

-- What the scan knows, after the chunks `seen`.
abbrev Knows : ℕ → List Chunk → Option (ℕ × Chunk) → Type 0
Knows cnt seen none = FitsNone cnt seen
Knows cnt seen (some (i, b)) = (get_elem? seen i ≡ some b) × (cnt ≤ b.count) × IsBestOf cnt b seen

FitsNone-IsBestOf : (cnt : ℕ) (b : Chunk) (cs : List Chunk) → FitsNone cnt cs → IsBestOf cnt b cs
FitsNone-IsBestOf cnt b [] h = tt
FitsNone-IsBestOf cnt b (c ∷ cs) h =
    (λ fits. absurd (omega (arith, h.0, fits)), FitsNone-IsBestOf cnt b cs h.1)

IsBestOf-le :
    (cnt : ℕ) (b b' : Chunk) (cs : List Chunk)
    → b'.count ≤ b.count
    → IsBestOf cnt b cs
    → IsBestOf cnt b' cs
IsBestOf-le cnt b b' [] le h = tt
IsBestOf-le cnt b b' (c ∷ cs) le h =
    (λ fits. omega (arith, h.0 fits, le), IsBestOf-le cnt b b' cs le h.1)

-- One chunk more.
Knows-step :
    (cnt : ℕ) (seen : List Chunk) (best : Option (ℕ × Chunk)) (c : Chunk)
    → Knows cnt seen best
    → Knows cnt (seen ++ (c ∷ [])) (if is_better cnt best c then some (length seen, c) else best)
Knows-step cnt seen none c k = elim (Bool-cases (leb cnt c.count)) [
  | inl t ↦ rw t (
    get_elem?-length seen [] c,
    ground (arith, t),
    All-append (λ x. cnt ≤ x.count → c.count ≤ x.count) seen (c ∷ [])
        (FitsNone-IsBestOf cnt c seen k) (λ fits. le_refl c.count, tt),
  )
  | inr f ↦ rw f (All-append (λ x. x.count < cnt) seen (c ∷ []) k (ground (arith, f), tt))
]
Knows-step cnt seen (some (i, b)) c (at, fit, best) =
    elim (Bool-cases (leb cnt c.count && ltb c.count b.count)) [
      | inl t ↦ rw t (
        get_elem?-length seen [] c,
        ground (arith, t),
        All-append (λ x. cnt ≤ x.count → c.count ≤ x.count) seen (c ∷ [])
            (IsBestOf-le cnt b c seen (ground (arith, t)) best) (λ fits. le_refl c.count, tt),
      )
      | inr f ↦ rw f (
        get_elem?-append seen (c ∷ []) i at,
        fit,
        All-append (λ x. cnt ≤ x.count → b.count ≤ x.count) seen (c ∷ []) best
            (λ fits. ground (arith, f, fits), tt),
      )
    ]

scan-Knows :
    (cnt : ℕ) (seen rest whole : List Chunk) (i : ℕ) (best : Option (ℕ × Chunk))
    → Knows cnt seen best
    → i ≡ length seen
    → whole ≡ seen ++ rest
    → Knows cnt whole (scan cnt i best rest)
unfolding scan
scan-Knows cnt seen [] whole i best k e w = rw (w, append-nil) k
scan-Knows cnt seen (c ∷ rest) whole i best k e w = rw e (
    scan-Knows cnt (seen ++ (c ∷ [])) rest whole (length seen + 1)
      (if is_better cnt best c then some (length seen, c) else best) (Knows-step cnt seen best c k)
      (omega (arith, length-append seen (c ∷ []))) (w ∙ sym (append_assoc seen (c ∷ []) rest)))

count-remove_at :
    (cs : List Chunk) (i : ℕ) {c : Chunk}
    → get_elem? cs i ≡ some c
    → free_page_count cs ≡ c.count + free_page_count (remove_at i cs)
unfolding free_page_count
count-remove_at [] i e = cc e
count-remove_at (x ∷ cs) zero {c} e = ap (λ (y : Chunk). y.count + free_page_count cs) (some_inj e)
count-remove_at (x ∷ cs) (suc i) e = omega (arith, count-remove_at cs i e)

count-set :
    (cs : List Chunk) (i : ℕ) {c : Chunk} (c' : Chunk)
    → get_elem? cs i ≡ some c
    → free_page_count cs + c'.count ≡ c.count + free_page_count (set cs i c')
unfolding free_page_count
count-set [] i c' e = cc e
count-set (x ∷ cs) zero {c} c' e =
    let same : x.count ≡ c.count = ap (λ (y : Chunk). y.count) (some_inj e) in omega (arith, same)
count-set (x ∷ cs) (suc i) c' e = omega (arith, count-set cs i c' e)

-- What an allocation of `cnt` pages at page `pp` out of the chunks `cs` leaves.
pub record Allocated (cnt : ℕ) (cs : List Chunk) (pp : ℕ) (cs' : List Chunk) : Type 0 where
  -- every page keeps its number of owners, but those handed out have one less
  pub moved : (p : ℕ) → owners p cs ≡ owners p cs' + in_range p pp cnt
  -- so many fewer are free
  pub counted : free_page_count cs ≡ free_page_count cs' + cnt
  -- the pages come from the end of a chunk of the list that fits and is smallest among those that do
  pub index : ℕ
  pub source : Chunk
  pub listed : get_elem? cs index ≡ some source
  pub fits : cnt ≤ source.count
  pub is_last : pp + cnt ≡ source.base + source.count
  pub best : IsBestOf cnt source cs

module _ (cnt : ℕ) (cs : List Chunk) (i : ℕ) (b : Chunk) where
  -- A whole chunk.
  carve_whole :
      get_elem? cs i ≡ some b
      → b.count ≡ cnt
      → IsBestOf cnt b cs
      → Allocated cnt cs b.base (remove_at i cs)
  carve_whole at e best = record {
    moved = λ p. rw (← e) (owners-remove_at p cs i {c = b} at);
    counted = omega (arith, e, count-remove_at cs i {c = b} at);
    index = i;
    source = b;
    listed = at;
    fits = omega (arith, e);
    is_last = omega (arith, e);
    best = best;
  }

  -- The last pages of a larger one.
  carve_part :
      get_elem? cs i ≡ some b
      → cnt ≤ b.count
      → IsBestOf cnt b cs
      → Allocated cnt cs (b.base + (b.count - cnt)) (set cs i (record b { count = b.count - cnt }))
  carve_part at fit best =
      let same : b.count - cnt + cnt ≡ b.count = omega (arith, fit) in
      record {
        moved = λ p. omega (
          arith,
          owners-set p cs i {c = b} (record b { count = b.count - cnt }) at,
          in_range-split p b.base (b.count - cnt) cnt,
          ap (in_range p b.base) same,
        );
        counted =
            omega (arith, fit, count-set cs i {c = b} (record b { count = b.count - cnt }) at);
        index = i;
        source = b;
        listed = at;
        fits = fit;
        is_last = omega (arith, fit);
        best = best;
      }

  carve-Allocated :
      {r : ℕ × List Chunk}
      → Knows cnt cs (some (i, b))
      → carve cnt cs (some (i, b)) ≡ some r
      → Allocated cnt cs r.0 r.1
  unfolding carve
  carve-Allocated {r} (at, fit, best) e = elim (Bool-cases (b.count == cnt)) [
    | inl t ↦
        subst (λ (x : ℕ × List Chunk). Allocated cnt cs x.0 x.1) (some_inj (rw t at e))
          (carve_whole at (==→eq b.count cnt t) best)
    | inr f ↦
        subst (λ (x : ℕ × List Chunk). Allocated cnt cs x.0 x.1) (some_inj (rw f at e))
          (carve_part at fit best)
  ]

  carve-ne-none : ¬ (carve cnt cs (some (i, b)) ≡ none)
  unfolding carve
  carve-ne-none e = ground arith

-- What the scan of the whole list knows.
scanned : (cnt : ℕ) (cs : List Chunk) → Knows cnt cs (scan cnt 0 none cs)
scanned cnt cs = scan-Knows cnt [] cs cs 0 none tt refl refl

carved :
    (cnt : ℕ) (cs : List Chunk) (best : Option (ℕ × Chunk)) {r : ℕ × List Chunk}
    → Knows cnt cs best
    → carve cnt cs best ≡ some r
    → Allocated cnt cs r.0 r.1
unfolding carve
carved cnt cs none k e = cc e
carved cnt cs (some (i, b)) k e = carve-Allocated cnt cs i b k e

-- An allocation takes its pages from the end of a chunk of the list that fits and is no larger than
-- any other that fits; every page keeps its number of owners but for those that are handed out, each
-- of which has one less, and the number of free pages goes down by theirs.
pub alloc_pages-Allocated :
    (cnt : ℕ) (cs : List Chunk) {pp : ℕ} {cs' : List Chunk}
    → alloc_pages cnt cs ≡ some (pp, cs')
    → Allocated cnt cs pp cs'
unfolding alloc_pages
alloc_pages-Allocated cnt [] e = cc e
alloc_pages-Allocated cnt (c ∷ cs) e =
    carved cnt (c ∷ cs) (scan cnt 0 none (c ∷ cs)) (scanned cnt (c ∷ cs)) e

carve-none :
    (cnt : ℕ) (cs : List Chunk) (best : Option (ℕ × Chunk))
    → Knows cnt cs best
    → (carve cnt cs best ≡ none) ↔ FitsNone cnt cs
unfolding carve
carve-none cnt cs none k = (λ e. k, λ h. refl)
carve-none cnt cs (some (i, b)) (at, fit, best) = (
  λ e. absurd (carve-ne-none cnt cs i b e),
  λ h. absurd (omega (arith, All-get_elem? (λ c. c.count < cnt) cs i h at, fit)),
)

-- An allocation panics exactly when no chunk has as many pages as are asked for.
pub alloc_pages-none :
    (cnt : ℕ) (cs : List Chunk) → (alloc_pages cnt cs ≡ none) ↔ All (λ c. c.count < cnt) cs
unfolding alloc_pages
alloc_pages-none cnt [] = (λ e. tt, λ h. refl)
alloc_pages-none cnt (c ∷ cs) =
    carve-none cnt (c ∷ cs) (scan cnt 0 none (c ∷ cs)) (scanned cnt (c ∷ cs))

-- With no page owned twice, an allocation keeps it so, and no page that it hands out is still free.
pub alloc_pages-NoOverlap :
    (cnt : ℕ) (cs : List Chunk) {pp : ℕ} {cs' : List Chunk}
    → NoOverlap cs
    → alloc_pages cnt cs ≡ some (pp, cs')
    → NoOverlap cs' × ((p : ℕ) → pp ≤ p → p < pp + cnt → owners p cs' ≡ 0)
alloc_pages-NoOverlap cnt cs {pp} {cs'} h e =
    let a : Allocated cnt cs pp cs' = alloc_pages-Allocated cnt cs e in
    (λ p. omega (arith, h p, a.moved p), λ p lo hi. ground (arith, h p, a.moved p))
