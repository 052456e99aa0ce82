-- ===== src/Memory/Table/Validate.antt =====
-- `validate_vptr` of src/modified/sys/memory.c accepts a range just when every address of it may
-- be used.
use mathlib.Core.Path.{subst}
use native.Mathlib.Decide.{dec_lt}
use unix_like_operating_syst.Base.{
  ℕ, zero, suc, ◌+◌, ◌-◌, ◌*◌, ◌/◌, ◌%◌, ◌^◌, ◌≤◌, ◌<◌, ◌≡◌, ◌↔◌, ◌⊎◌, inl, inr, refl, sym, ap,
  Bool, true, ◌&&◌, Option, none, some, arith, if◌then◌else◌, lt→ltb, le→ltb, Bool-cases,
}
use unix_like_operating_syst.Base.Results.{Result, ok, err, einval, ebadfmt}
use unix_like_operating_syst.Memory.Table.{
  Flags, Pte, Mem, page_size, vpn, vpn0, is_leaf, slot, wellformed, has_flags, check_slot,
  validate_page, validate_loop, validate_vptr,
}

-- An address is canonical if the bits from 38 on are all equal.
pub wellformed_iff :
    (vma : ℕ) → vma < 2 ^ 64 → (wellformed vma ≡ true) ↔ ((vma < 2 ^ 38) ⊎ (2 ^ 64 - 2 ^ 38 ≤ vma))
unfolding wellformed
wellformed_iff vma h = (λ t. ground arith, λ d. ground arith)

-- An address may be used with the flags `want`: it is canonical, and its page is mapped by a leaf
-- that has them all.
pub record Usable (mem : Mem) (root : ℕ) (want : Flags) (a : ℕ) : Type 0 where
  pub canonical : wellformed a ≡ true
  pub table : ℕ
  pub walked : slot mem root (vpn a) ≡ some table
  pub valid : (mem table (vpn0 (vpn a))).flags.v ≡ true
  pub leaf : is_leaf (mem table (vpn0 (vpn a))) ≡ true
  pub granted : has_flags (mem table (vpn0 (vpn a))).flags want ≡ true

-- The tests of an entry, as Booleans.
pub graded :
    (v l h : Bool)
    → ◌≡◌ {A = Result (Unit {0})}
        (if v && l then (if h then ok tt else err einval) else err ebadfmt)
        (ok tt)
      ↔ ((v ≡ true) × (l ≡ true) × (h ≡ true))
graded v l h = (λ e. ground arith, λ t. ground arith)

module _ (mem : Mem) (root : ℕ) (want : Flags) where
  from_slot :
      (a : ℕ) (s : Option ℕ)
      → slot mem root (vpn a) ≡ s
      → wellformed a ≡ true
      → check_slot mem (vpn a) want s ≡ ok tt
      → Usable mem root want a
  from_slot a none e w c = cc c
  from_slot a (some t0) e w c =
      let p : Pte = mem t0 (vpn0 (vpn a)) in
      let (v, l, h) = (graded p.flags.v (is_leaf p) (has_flags p.flags want)).0 c in
      record { canonical = w; table = t0; walked = e; valid = v; leaf = l; granted = h }

  -- The body of the loop of `validate_vptr` lets an address pass just when it is canonical and its
  -- page is mapped by a leaf that has all the flags asked for.
  pub validate_page_iff : (a : ℕ) → (validate_page mem root want a ≡ ok tt) ↔ Usable mem root want a
  unfolding validate_page
  validate_page_iff a = (
    λ e. elim (Bool-cases (wellformed a)) [
      | inl t ↦ from_slot a (slot mem root (vpn a)) refl t (rw t at e)
      | inr f ↦ cc (rw f at e)
    ],
    λ u.
        let p : Pte = mem u.table (vpn0 (vpn a)) in
        rw (u.canonical, u.walked)
          ((graded p.flags.v (is_leaf p) (has_flags p.flags want)).1 (u.valid, u.leaf, u.granted)),
  )

  -- All addresses of a page are usable alike.
  pub Usable-page :
      (a b : ℕ)
      → a < 2 ^ 64
      → b < 2 ^ 64
      → a / page_size ≡ b / page_size
      → Usable mem root want a
      → Usable mem root want b
  Usable-page a b ha hb same u = record {
    canonical = (wellformed_iff b hb).1 (ground (arith, (wellformed_iff a ha).0 u.canonical));
    table = u.table;
    walked = subst (λ (n : ℕ). slot mem root n ≡ some u.table) same u.walked;
    valid = subst (λ (n : ℕ). (mem u.table (vpn0 n)).flags.v ≡ true) same u.valid;
    leaf = subst (λ (n : ℕ). is_leaf (mem u.table (vpn0 n)) ≡ true) same u.leaf;
    granted = subst (λ (n : ℕ). has_flags (mem u.table (vpn0 n)).flags want ≡ true) same u.granted;
  }

  -- What the loop decides about the addresses from `curr` on.
  Decides : ℕ → ℕ → ℕ → Option (Result (Unit {0})) → Type 0
  Decides lo curr end none = ⊥
  Decides lo curr end (some (ok _)) = (a : ℕ) → curr ≤ a → lo ≤ a → a < end → Usable mem root want a
  Decides lo curr end (some (err _)) = (a : ℕ) × (lo ≤ a) × (a < end) × ¬ Usable mem root want a

  abbrev or_error : Option (Result (Unit {0})) → Result (Unit {0}) → Option (Result (Unit {0}))
  or_error rest (ok _) = rest
  or_error rest (err e) = some (err e)

  -- One page, before the rest of the loop.
  page-Decides :
      (lo curr end : ℕ) (r : Result (Unit {0})) (rest : Option (Result (Unit {0})))
      → validate_page mem root want curr ≡ r
      → curr % page_size ≡ 0
      → lo < curr + page_size
      → lo < end
      → curr < end
      → end ≤ 2 ^ 64 - page_size
      → Decides lo (curr + page_size) end rest
      → Decides lo curr end (or_error rest r)
  unfolding Decides
  page-Decides lo curr end (ok x) none e al inside some_left lt top d = d
  page-Decides lo curr end (ok x) (some (ok y)) e al inside some_left lt top d = λ a ca la ae.
      elim (dec_lt a (curr + page_size)) [
        | yes near ↦
            Usable-page curr a (omega arith) (omega arith) (omega arith)
              ((validate_page_iff curr).0 e)
        | no far ↦ d a (omega arith) la ae
      ]
  page-Decides lo curr end (ok x) (some (err y)) e al inside some_left lt top d = d
  page-Decides lo curr end (err x) rest e al inside some_left lt top d = elim (dec_lt lo curr) [
    | yes below ↦ (curr, omega arith, lt, λ u. cc (e, (validate_page_iff curr).1 u))
    | no above ↦ (
      lo,
      omega arith,
      some_left,
      λ u. cc (
        e,
        (validate_page_iff curr).1
            (Usable-page lo curr (omega arith) (omega arith) (omega arith) u),
      ),
    )
  ]

  -- A round of the loop.
  loop_step :
      (fuel curr end : ℕ)
      → curr < end
      → end ≤ 2 ^ 64 - page_size
      → validate_loop (suc fuel) mem root want curr end
        ≡ or_error
            (validate_loop fuel mem root want (curr + page_size) end)
            (validate_page mem root want curr)
  unfolding validate_loop
  loop_step fuel curr end lt top =
      let next : (curr + page_size) % 2 ^ 64 ≡ curr + page_size = omega arith in
      rw (lt→ltb curr end lt) (
        ap
          (λ (n : ℕ).
            or_error (validate_loop fuel mem root want n end) (validate_page mem root want curr))
          next)

  -- From the page at `curr`, which `lo` is in or before, on.
  loop-Decides :
      (k lo curr end : ℕ)
      → curr % page_size ≡ 0
      → lo < curr + page_size
      → lo < end
      → end ≤ curr + k * page_size
      → end ≤ 2 ^ 64 - page_size
      → Decides lo curr end (validate_loop (suc k) mem root want curr end)
  unfolding validate_loop Decides
  loop-Decides zero lo curr end al inside some_left room top =
      rw (le→ltb curr end (omega arith)) (λ a ca la ae. absurd (omega arith))
  loop-Decides (suc k) lo curr end al inside some_left room top = elim (dec_lt curr end) [
    | no ge ↦ rw (le→ltb curr end (omega arith)) (λ a ca la ae. absurd (omega arith))
    | yes lt ↦ subst (Decides lo curr end) (sym (loop_step (suc k) curr end lt top)) (
        page-Decides lo curr end (validate_page mem root want curr)
          (validate_loop (suc k) mem root want (curr + page_size) end) refl al inside some_left lt
          top
          (loop-Decides k lo (curr + page_size) end (omega arith) (omega arith) some_left
            (omega arith) top))
  ]

  -- What an answer of `validate_vptr` says of a range: there is one, a success means that every
  -- address of the range may be used, and an error that some address of it may not.
  abbrev pub Answers : ℕ → ℕ → Option (Result (Unit {0})) → Type 0
  Answers vp len none = ⊥
  Answers vp len (some (ok _)) = (a : ℕ) → vp ≤ a → a < vp + len → Usable mem root want a
  Answers vp len (some (err _)) = (a : ℕ) × (vp ≤ a) × (a < vp + len) × ¬ Usable mem root want a

  answer :
      (vp len curr : ℕ) (r : Option (Result (Unit {0})))
      → curr ≤ vp
      → Decides vp curr (vp + len) r
      → Answers vp len r
  unfolding Decides
  answer vp len curr none le d = d
  answer vp len curr (some (ok x)) le d = λ a va ae. d a (omega arith) va ae
  answer vp len curr (some (err x)) le d = d

  -- For a range that is not empty and ends below the last page of the address space, and with fuel
  -- for two rounds more than it has pages, `validate_vptr` returns: success if every address of the range
  -- is canonical and mapped by a leaf with all the flags asked for, an error only if some address
  -- of it is not.
  pub validate_vptr-Answers :
      (vp len k : ℕ)
      → 0 < len
      → vp + len ≤ 2 ^ 64 - page_size
      → len < k * page_size
      → Answers vp len (validate_vptr (suc (suc k)) mem root vp len want)
  unfolding validate_vptr
  validate_vptr-Answers vp len k some_left top room =
      let fits : (vp + len) % 2 ^ 64 ≡ vp + len = omega arith in
      rw (fits, le→ltb (vp + len) vp (omega arith))
        (answer vp len (vp / page_size * page_size) _ (omega arith) (
          loop-Decides (suc k) vp (vp / page_size * page_size) (vp + len) (omega arith)
            (omega arith) (omega arith) (omega arith) top))
