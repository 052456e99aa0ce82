-- ===== src/Memory/Table/Text/Answers.antt =====
-- `validate_vstr` of src/modified/sys/memory.c accepts just the addresses of strings whose bytes may all
-- be used.
use mathlib.Core.Path.{subst}
use native.Mathlib.Decide.{dec_lt}
use unix_like_operating_syst.Base.{
  ℕ, zero, suc, ◌+◌, ◌-◌, ◌%◌, ◌^◌, ◌≤◌, ◌<◌, ◌≡◌, inl, inr, refl, sym, ap, ◌∙◌, Bool, true, false,
  Option, none, some, arith, ne→==, Bool-cases,
}
use unix_like_operating_syst.Base.Results.{Result, ok, err}
use unix_like_operating_syst.Memory.Table.{
  Flags, Pte, Mem, page_size, vpn, vpn0, is_leaf, slot, wellformed, has_flags, check_entry,
  check_slot, validate_page,
}
use unix_like_operating_syst.Memory.Table.Validate.{
  Usable, Usable-page, validate_page_iff, wellformed_iff, graded,
}
use unix_like_operating_syst.Memory.Table.Text.{
  Bytes, has_zero, scan_page, check_string, string_page, go_on, next_page, validate_vstr,
}

has_zero-where :
    (k i : ℕ) (page : ℕ → ℕ) → has_zero k page i ≡ true → (j : ℕ) × (j < k) × (page (i + j) ≡ 0)
unfolding has_zero
has_zero-where zero i page h = cc h
has_zero-where (suc k) i page h = elim (dec_lt 0 (page i)) [
  | no z ↦ let here : i + 0 ≡ i = omega arith in (0, omega arith, ap page here ∙ omega (arith, z))
  | yes nz ↦
      let (j, lt, z) =
        has_zero-where k (i + 1) page (rw (ne→== (page i) 0 (λ e. omega (arith, nz, e))) at h) in
      (suc j, omega (arith, lt), ap page (omega arith) ∙ z)
]

has_zero-finds : (k i j : ℕ) (page : ℕ → ℕ) → page (i + j) ≡ 0 → j < k → has_zero k page i ≡ true
unfolding has_zero
has_zero-finds zero i j page z lt = absurd (omega (arith, lt))
has_zero-finds (suc k) i zero page z lt =
    let here : page i ≡ 0 = ap page (omega arith) ∙ z in rw here refl
has_zero-finds (suc k) i (suc j) page z lt =
    let there : page (i + 1 + j) ≡ 0 = ap page (omega arith) ∙ z in
    let ih = has_zero-finds k (i + 1) j page there (omega (arith, lt)) in rw ih (ground arith)

module _ (mem : Mem) (bytes : Bytes) (root : ℕ) (want : Flags) where
  -- Every address from one on, for so many bytes and one more, may be used, and the last holds a
  -- zero.
  pub record Text (vs n : ℕ) : Type 0 where
    pub usable : (a : ℕ) → vs ≤ a → a ≤ vs + n → Usable mem root want a
    pub table : ℕ
    pub walked : slot mem root (vpn (vs + n)) ≡ some table
    pub ends : bytes (mem table (vpn0 (vpn (vs + n)))).ppn ((vs + n) % page_size) ≡ 0

  -- A usable page is scanned.
  string_page-scans :
      (a : ℕ) (u : Usable mem root want a)
      → string_page mem bytes root want a
        ≡ ok (
            has_zero
              (page_size - a % page_size)
              (bytes (mem u.table (vpn0 (vpn a))).ppn)
              (a % page_size))
  unfolding string_page
  string_page-scans a u =
      let p : Pte = mem u.table (vpn0 (vpn a)) in
      rw (u.canonical, u.walked)
        (ap (scan_page bytes a p)
          ((graded p.flags.v (is_leaf p) (has_flags p.flags want)).1 (u.valid, u.leaf, u.granted)))

  -- What is left of a string behind a page.
  Text-next :
      (vs n : ℕ)
      → Text vs n
      → vs + n < 2 ^ 64
      → page_size ≤ vs % page_size + n
      → Text (next_page vs) (vs + n - next_page vs)
  Text-next vs n t top far =
      let same : next_page vs + (vs + n - next_page vs) ≡ vs + n = omega (arith, top, far) in
      record {
        usable = λ a ge le. t.usable a (omega (arith, ge, top, far)) (omega (arith, le, same));
        table = t.table;
        walked = subst (λ (m : ℕ). slot mem root (vpn m) ≡ some t.table) (sym same) t.walked;
        ends =
            subst (λ (m : ℕ). bytes (mem t.table (vpn0 (vpn m))).ppn (m % page_size) ≡ 0) (sym same)
              t.ends;
      }

  -- A zero on the first page is found.
  Text-here :
      (vs n : ℕ) (t : Text vs n) (u : Usable mem root want vs)
      → vs % page_size + n < page_size
      → has_zero
          (page_size - vs % page_size)
          (bytes (mem u.table (vpn0 (vpn vs))).ppn)
          (vs % page_size)
        ≡ true
  Text-here vs n t u near =
      let same : vpn (vs + n) ≡ vpn vs = omega (arith, near) in
      let off : (vs + n) % page_size ≡ vs % page_size + n = omega (arith, near) in
      let tables : t.table ≡ u.table = cc same in
      has_zero-finds (page_size - vs % page_size) (vs % page_size) n
        (bytes (mem u.table (vpn0 (vpn vs))).ppn) (cc (same, off, tables)) (omega (arith, near))

  scan-ok :
      (a : ℕ) (e : Pte) (r : Result (Unit {0})) (b : Bool)
      → scan_page bytes a e r ≡ ok b
      → r ≡ ok tt
  scan-ok a e (ok tt) b h = refl
  scan-ok a e (err x) b h = cc h

  check-ok :
      (a : ℕ) (s : Option ℕ) (b : Bool)
      → check_string mem bytes a want s ≡ ok b
      → check_slot mem (vpn a) want s ≡ ok tt
  check-ok a none b h = cc h
  check-ok a (some t0) b h = let e = mem t0 (vpn0 (vpn a)) in scan-ok a e (check_entry want e) b h

  -- A page that is scanned is usable.
  string_page-Usable :
      (a : ℕ) (b : Bool) → string_page mem bytes root want a ≡ ok b → Usable mem root want a
  unfolding string_page validate_page
  string_page-Usable a b h =
      (validate_page_iff mem root want a).0 (elim (Bool-cases (wellformed a)) [
        | inl t ↦ rw t (check-ok a _ b (rw t at h))
        | inr f ↦ cc (rw f at h)
      ])

  -- What an answer says of the string at an address: success that there is one, an error that there
  -- is none.
  abbrev pub StringAnswers : ℕ → Option (Result (Unit {0})) → Type 0
  StringAnswers vs none = ⊥
  StringAnswers vs (some (ok _)) = (n : ℕ) × Text vs n
  StringAnswers vs (some (err _)) = (n : ℕ) → vs + n < 2 ^ 64 → ¬ Text vs n

  -- The string ends on the page.
  ends_here :
      (vs : ℕ) → vs ≤ 2 ^ 38 → string_page mem bytes root want vs ≡ ok true → (n : ℕ) × Text vs n
  ends_here vs low e =
      let u = string_page-Usable vs true e in
      let (n, near, z) =
        has_zero-where (page_size - vs % page_size) (vs % page_size)
          (bytes (mem u.table (vpn0 (vpn vs))).ppn) (cc (e, string_page-scans vs u)) in
      let same : vpn (vs + n) ≡ vpn vs = omega (arith, near) in
      let off : (vs + n) % page_size ≡ vs % page_size + n = omega (arith, near) in
      (
        n,
        record {
          usable = λ a ge le.
              Usable-page mem root want vs a (omega (arith, low)) (omega (arith, low, near, le))
                (omega (arith, ge, le, same)) u;
          table = u.table;
          walked = cc (same, u.walked);
          ends = cc (same, off, z);
        },
      )

  -- A usable page before a string is a part of it.
  Text-before :
      (vs n : ℕ)
      → vs ≤ 2 ^ 38
      → Usable mem root want vs
      → Text (next_page vs) n
      → (m : ℕ) × Text vs m
  Text-before vs n low u t =
      let same : vs + (next_page vs - vs + n) ≡ next_page vs + n = omega (arith, low) in
      (
        next_page vs - vs + n,
        record {
          usable = λ a ge le. elim (dec_lt a (next_page vs)) [
            | yes near ↦
                Usable-page mem root want vs a (omega (arith, low)) (omega (arith, low, near))
                  (omega (arith, ge, low, near)) u
            | no far ↦ t.usable a (omega (arith, far)) (omega (arith, le, same))
          ];
          table = t.table;
          walked = subst (λ (m : ℕ). slot mem root (vpn m) ≡ some t.table) (sym same) t.walked;
          ends =
              subst (λ (m : ℕ). bytes (mem t.table (vpn0 (vpn m))).ppn (m % page_size) ≡ 0)
                (sym same) t.ends;
        },
      )

  -- The string goes on behind the page.
  goes_on :
      (vs : ℕ) (r : Option (Result (Unit {0})))
      → vs ≤ 2 ^ 38
      → string_page mem bytes root want vs ≡ ok false
      → StringAnswers (next_page vs) r
      → StringAnswers vs r
  goes_on vs none low e d = d
  goes_on vs (some (ok _)) low e (n, t) = Text-before vs n low (string_page-Usable vs false e) t
  goes_on vs (some (err _)) low e d = λ n top t. elim (dec_lt (vs % page_size + n) page_size) [
    | yes near ↦ cc (
      e,
      string_page-scans vs (t.usable vs (omega arith) (omega arith)),
      Text-here vs n t (t.usable vs (omega arith) (omega arith)) near,
    )
    | no far ↦
        d (vs + n - next_page vs) (omega (arith, top, far))
          (Text-next vs n t top (omega (arith, far)))
  ]

  step-Answers :
      (vs : ℕ) (p : Result Bool) (rest : Option (Result (Unit {0})))
      → vs ≤ 2 ^ 38
      → string_page mem bytes root want vs ≡ p
      → (Usable mem root want vs → StringAnswers (next_page vs) rest)
      → StringAnswers vs (go_on rest p)
  step-Answers vs (err x) rest low e d =
      λ n top t. cc (e, string_page-scans vs (t.usable vs (omega arith) (omega arith)))
  step-Answers vs (ok true) rest low e d = ends_here vs low e
  step-Answers vs (ok false) rest low e d =
      goes_on vs rest low e (d (string_page-Usable vs false e))

  -- From an address of at most 2 ^ 38, and with fuel for the pages up to there and one more,
  -- `validate_vstr` returns: success only if a zero comes and every address up to it is canonical and
  -- mapped by a leaf with all the flags asked for, an error only if there is no such string.
  pub validate_vstr-Answers :
      (k vs : ℕ)
      → vs ≤ 2 ^ 38
      → 2 ^ 26 < vpn vs + k
      → StringAnswers vs (validate_vstr k mem bytes root vs want)
  unfolding validate_vstr
  validate_vstr-Answers zero vs low room = absurd (omega (arith, low, room))
  validate_vstr-Answers (suc k) vs low room =
      step-Answers vs (string_page mem bytes root want vs) _ low refl (λ u.
        let below = (wellformed_iff vs (omega (arith, low))).0 u.canonical in
        validate_vstr-Answers k (next_page vs) (omega (arith, low, below))
          (omega (arith, low, below, room)))
