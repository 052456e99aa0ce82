-- ===== src/Strings/Numbers.antt =====
-- Numbers written by `format_int` and read by `strtoul` of src/provided/sys/string.c.
use unix_like_operating_syst.Base.{
  ℕ, zero, suc, ◌+◌, ◌-◌, ◌*◌, ◌/◌, ◌%◌, ◌^◌, ◌≡◌, ◌<◌, ◌≤◌, refl, sym, ap, ◌∙◌, inl, inr, true,
  false, some, [], ◌∷◌, ◌++◌, arith, ltb, leb, ◌==◌, Bool-cases, ==→eq, ==→ne, ne→==, le→ltb,
  length, Option, none, replicate,
}
use native.Mathlib.Nat.{
  mod-eq_of_lt, div-lt_self, div-le_self, mul_comm, pow-succ', pow-zero, div-lt_iff_lt-mul,
}
use mathlib.Core.Path.{subst}
use native.Mathlib.Omega.{div_fact, mod_fact}
use unix_like_operating_syst.Strings.{
  Str, first, digit, format_digits, format_int, strtoul_loop, strtoul_sign, strtoul,
}

-- The loop of `strtoul` reads a digit.
read_digit :
    (base val d : ℕ) (s : Str)
    → base ≤ 10
    → d < base
    → val * base + d < 2 ^ 64
    → strtoul_loop base val (digit d ∷ s) ≡ strtoul_loop base (val * base + d) s
unfolding strtoul_loop
read_digit base val d s small lt fits =
    let ten : ltb d 10 ≡ true = ground (arith, small, lt) in
    let low : ltb (48 + d) 48 ≡ false = ground arith in
    let high : leb (48 + base) (48 + d) ≡ false = ground (arith, lt) in
    let m = val * base in
    let one : m % 2 ^ 64 ≡ m = mod-eq_of_lt (omega (arith, fits)) in
    rw ten (
      rw low (
        rw high (
          ap (λ (k : ℕ). strtoul_loop base k s)
            (ap (λ (k : ℕ). (k + (48 + d - 48)) % 2 ^ 64) one
              ∙ ap (λ (k : ℕ). k % 2 ^ 64) {x = m + (48 + d - 48)} {y = m + d} (omega arith)
              ∙ mod-eq_of_lt fits))))

-- The digits of a number are read as the number.
read_digits :
    (k n val : ℕ) (buf : Str)
    → suc (suc k) ≤ 10
    → val < n
    → val < 2 ^ 64
    → strtoul_loop (suc (suc k)) 0 (format_digits (suc (suc k)) n val buf)
      ≡ strtoul_loop (suc (suc k)) val buf
unfolding format_digits
read_digits k zero val buf small enough fits = absurd (omega (arith, enough))
read_digits k (suc n) val buf small enough fits =
    let base = suc (suc k) in
    let q = val / base in
    let d = val % base in
    let lt : d < base = mod_fact val (suc k) in
    let whole : q * base + d ≡ val =
      ap (λ (j : ℕ). j + d) (mul_comm q base) ∙ div_fact val (suc k) in
    elim (Bool-cases (q == 0)) [
      | inl y ↦
          let none_left : 0 * base + d ≡ val =
            ap (λ (j : ℕ). j * base + d) (sym (==→eq q 0 y)) ∙ whole in
          rw y (
            read_digit base 0 d buf small lt (omega (arith, none_left, fits))
            ∙ ap (λ (j : ℕ). strtoul_loop base j buf) none_left)
      | inr f ↦
          let ne = ==→ne q 0 f in
          let some_left : 0 < val = omega (arith, ne, div-le_self val base) in
          let less : q < val = div-lt_self some_left (omega arith) in
          rw f (
            read_digits k n q (digit d ∷ buf) small (omega (arith, less, enough))
              (omega (arith, less, fits))
            ∙ read_digit base q d buf small lt (omega (arith, whole, fits))
            ∙ ap (λ (j : ℕ). strtoul_loop base j buf) whole)
    ]

digit-le : (d : ℕ) → 48 ≤ digit d
digit-le d = ground arith

first-format_digits :
    (base n val : ℕ) (buf : Str) → 48 ≤ first buf → 48 ≤ first (format_digits base n val buf)
unfolding format_digits
first-format_digits base zero val buf h = h
first-format_digits base (suc n) val buf h = elim (Bool-cases (val / base == 0)) [
  | inl y ↦ rw y (digit-le (val % base))
  | inr f ↦
      rw f
        (first-format_digits base n (val / base) (digit (val % base) ∷ buf) (digit-le (val % base)))
]

first_digit : (base val : ℕ) → 48 ≤ first (format_digits base (suc val) val [])
unfolding format_digits
first_digit base val = elim (Bool-cases (val / base == 0)) [
  | inl y ↦ rw y (digit-le (val % base))
  | inr f ↦
      rw f (
        first-format_digits base val (val / base) (digit (val % base) ∷ []) (digit-le (val % base)))
]

end_of : (base val : ℕ) → strtoul_loop base val [] ≡ (val, [])
unfolding strtoul_loop
end_of base val = refl

-- Zeros before a number change nothing.
read_zeros :
    (base n : ℕ) (s : Str)
    → 2 ≤ base
    → strtoul_loop base 0 (replicate n 48 ++ s) ≡ strtoul_loop base 0 s
unfolding strtoul_loop
read_zeros base zero s h = refl
read_zeros base (suc n) s h =
    let high : leb (48 + base) 48 ≡ false = ground (arith, h) in
    rw high (
      ap (λ (j : ℕ). strtoul_loop base j (replicate n 48 ++ s))
        {x = (0 * base % 2 ^ 64 + (48 - 48)) % 2 ^ 64} {y = 0} (omega arith)
      ∙ read_zeros base n s h)

no_sign : (base : ℕ) (s : Str) → 48 ≤ first s → strtoul_sign base s ≡ strtoul_loop base 0 s
unfolding strtoul_sign
no_sign base [] h = absurd (omega (arith, h))
no_sign base (c ∷ s) h =
    rw (ne→== c 45 (omega (arith, h))) (rw (ne→== c 43 (omega (arith, h))) refl)

first-padded : (n : ℕ) (s : Str) → 48 ≤ first s → 48 ≤ first (replicate n 48 ++ s)
first-padded zero s h = h
first-padded (suc n) s h = omega arith

-- A digit less.
fewer : (k j val : ℕ) → val < suc (suc k) ^ suc j → val / suc (suc k) < suc (suc k) ^ j
fewer k j val fits =
    let base = suc (suc k) in
    let same : base ^ suc j ≡ base ^ j * base = pow-succ' base j ∙ mul_comm base (base ^ j) in
    (div-lt_iff_lt-mul (omega arith)).1 (subst (λ (m : ℕ). val < m) same fits)

-- A number below a power of the base has at most so many digits.
length-format_digits :
    (k j n val : ℕ) (buf : Str)
    → val < suc (suc k) ^ suc j
    → length (format_digits (suc (suc k)) n val buf) ≤ suc j + length buf
unfolding format_digits
length-format_digits k j zero val buf fits = omega arith
length-format_digits k zero (suc n) val buf fits =
    let none_left : val / suc (suc k) < 1 =
      subst (λ (m : ℕ). val / suc (suc k) < m) (pow-zero (suc (suc k))) (fewer k 0 val fits) in
    let last : val / suc (suc k) ≡ 0 = omega (arith, none_left) in rw last (omega arith)
length-format_digits k (suc j) (suc n) val buf fits = elim (Bool-cases (val / suc (suc k) == 0)) [
  | inl y ↦ rw y (omega arith)
  | inr f ↦
      let q = val / suc (suc k) in
      let ih =
        length-format_digits k j n q (digit (val % suc (suc k)) ∷ buf) (fewer k (suc j) val fits) in
      rw f (omega (arith, ih))
]

-- What a write and a read come to: the number is written, and read to its end as the same number.
abbrev pub Reads : ℕ → ℕ → Option Str → Type 0
Reads base val none = ⊥
Reads base val (some s) = strtoul s base ≡ (val, some [])

-- A number of 64 bits, in a base from 2 to 10 in which it has at most 40 digits, `format_int` writes
-- with zeros as padding of any length, and `strtoul` reads what it writes to the end as the same
-- number.
pub strtoul-format_int :
    (k val len : ℕ)
    → suc (suc k) ≤ 10
    → val < 2 ^ 64
    → val < suc (suc k) ^ 40
    → Reads (suc (suc k)) val (format_int val (suc (suc k)) true len)
unfolding strtoul format_int
strtoul-format_int k val len small fits short =
    let base = suc (suc k) in
    let digits = format_digits base (suc val) val [] in
    let n = len - length digits in
    let low : leb base 1 ≡ false = ground arith in
    let high : ltb 10 base ≡ false = ground (arith, small) in
    let starts : 48 ≤ first digits = first_digit base val in
    let reads : strtoul_sign base (replicate n 48 ++ digits) ≡ (val, []) =
      no_sign base (replicate n 48 ++ digits) (first-padded n digits starts)
      ∙ read_zeros base n digits (omega arith)
      ∙ read_digits k (suc val) val [] small (omega arith) fits
      ∙ end_of base val in
    let room : ltb 40 (length digits) ≡ false =
      le→ltb 40 (length digits) (omega (arith, length-format_digits k 39 (suc val) val [] short)) in
    rw room (rw low (rw high (ap (λ (r : ℕ × Str). (r.0, some r.1)) reads)))
