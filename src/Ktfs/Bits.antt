-- ===== src/Ktfs/Bits.antt =====
-- The bits of a bitmap of src/modified/sys/ktfs.c as one list, and its first free one.
use unix_like_operating_syst.Base.{
  ℕ, zero, suc, ◌+◌, ◌*◌, ◌≡◌, refl, sym, ap, ◌∙◌, inl, inr, Bool, true, false, not, Option, none,
  some, List, [], ◌∷◌, ◌++◌, arith, ◌==◌, Bool-cases, length, length-append, take, get_elem?, All,
}
use unix_like_operating_syst.Ktfs.{bit, scan_bits, in_byte, scan_bytes}

-- Whether each bit is in use.
abbrev pub bits_from : ℕ → ℕ → ℕ → List Bool
bits_from zero k byte = []
bits_from (suc n) k byte = not (bit byte k == 0) ∷ bits_from n (k + 1) byte

abbrev pub bits_of : List ℕ → List Bool
bits_of [] = []
bits_of (byte ∷ bytes) = bits_from 8 0 byte ++ bits_of bytes

abbrev pub all_bits : List (List ℕ) → List Bool
all_bits [] = []
all_bits (block ∷ blocks) = bits_of block ++ all_bits blocks

-- The place of the first bit that is not in use, counted from a number on.
abbrev pub first_free : ℕ → List Bool → Option ℕ
first_free n [] = none
first_free n (true ∷ bs) = first_free (n + 1) bs
first_free n (false ∷ bs) = some n

abbrev pub or_else : Option ℕ → Option ℕ → Option ℕ
or_else none o = o
or_else (some n) o = some n

pub first_free-append :
    (n : ℕ) (xs ys : List Bool)
    → first_free n (xs ++ ys) ≡ or_else (first_free n xs) (first_free (n + length xs) ys)
first_free-append n [] ys = ap (λ (k : ℕ). first_free k ys) (omega arith)
first_free-append n (true ∷ xs) ys =
    first_free-append (n + 1) xs ys
    ∙ ap (λ (k : ℕ). or_else (first_free (n + 1) xs) (first_free k ys)) (omega arith)
first_free-append n (false ∷ xs) ys = refl

scan_bits_lem :
    (n m k byte : ℕ)
    → in_byte m (scan_bits n k byte) none ≡ first_free (m * 8 + k) (bits_from n k byte)
unfolding scan_bits
scan_bits_lem zero m k byte = refl
scan_bits_lem (suc n) m k byte = elim (Bool-cases (bit byte k == 0)) [
  | inl y ↦ rw y refl
  | inr f ↦ rw f (
      scan_bits_lem n m (k + 1) byte
      ∙ ap (λ (i : ℕ). first_free i (bits_from n (k + 1) byte)) (omega arith))
]

in_byte-or_else : (j : ℕ) (o rest : Option ℕ) → in_byte j o rest ≡ or_else (in_byte j o none) rest
in_byte-or_else j none rest = refl
in_byte-or_else j (some k) rest = refl

-- The scan of a block finds the first free one of its bits.
pub scan_bytes_lem :
    (j : ℕ) (bytes : List ℕ) → scan_bytes j bytes ≡ first_free (j * 8) (bits_of bytes)
unfolding scan_bytes
scan_bytes_lem j [] = refl
scan_bytes_lem j (byte ∷ bytes) =
    let here : in_byte j (scan_bits 8 0 byte) none ≡ first_free (j * 8) (bits_from 8 0 byte) =
      scan_bits_lem 8 j 0 byte ∙ ap (λ (i : ℕ). first_free i (bits_from 8 0 byte)) (omega arith) in
    let later : scan_bytes (j + 1) bytes ≡ first_free (j * 8 + 8) (bits_of bytes) =
      scan_bytes_lem (j + 1) bytes ∙ ap (λ (i : ℕ). first_free i (bits_of bytes)) (omega arith) in
    in_byte-or_else j (scan_bits 8 0 byte) (scan_bytes (j + 1) bytes)
    ∙ ap (λ o. or_else o (scan_bytes (j + 1) bytes)) here
    ∙ ap (or_else (first_free (j * 8) (bits_from 8 0 byte))) later
    ∙ sym (first_free-append (j * 8) (bits_from 8 0 byte) (bits_of bytes))

pub length-bits_of : (bytes : List ℕ) → length (bits_of bytes) ≡ length bytes * 8
length-bits_of [] = omega arith
length-bits_of (byte ∷ bytes) =
    length-append (bits_from 8 0 byte) (bits_of bytes) ∙ omega (arith, length-bits_of bytes)

-- The answer of a search: the first free bit, or none and all in use.
abbrev pub FirstFree : ℕ → List Bool → Option ℕ → Type 0
FirstFree n bs none = All (λ b. b ≡ true) bs
FirstFree n bs (some m) =
    (i : ℕ) × (m ≡ n + i) × (get_elem? bs i ≡ some false) × All (λ b. b ≡ true) (take i bs)

FirstFree-next :
    (n : ℕ) (bs : List Bool) (o : Option ℕ) → FirstFree (n + 1) bs o → FirstFree n (true ∷ bs) o
FirstFree-next n bs none h = (refl, h)
FirstFree-next n bs (some m) (i, e, g, a) = (suc i, omega (arith, e), g, (refl, a))

pub first_free-FirstFree : (n : ℕ) (bs : List Bool) → FirstFree n bs (first_free n bs)
first_free-FirstFree n [] = tt
first_free-FirstFree n (true ∷ bs) =
    FirstFree-next n bs (first_free (n + 1) bs) (first_free-FirstFree (n + 1) bs)
first_free-FirstFree n (false ∷ bs) = (0, omega arith, refl, tt)
