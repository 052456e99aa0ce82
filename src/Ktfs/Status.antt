-- ===== src/Ktfs/Status.antt =====
-- Marking inodes and data blocks in the bitmaps of src/modified/sys/ktfs.c.
--
-- The blocks of a bitmap are what `cache_get_block` gives for them, as in the searches; a number
-- behind the bitmap's end is not marked.
pub mod Marks
use unix_like_operating_syst.Base.{
  ℕ, zero, suc, ◌+◌, ◌-◌, ◌*◌, ◌/◌, ◌%◌, ◌^◌, ◌≡◌, ◌<◌, ◌≤◌, refl, sym, ap, ◌∙◌, inl, inr, Bool,
  true, false, not, ◌&&◌, Option, none, some, List, [], ◌∷◌, ◌++◌, map, arith, ◌==◌, if◌then◌else◌,
  Bool-cases, length, length-append, get_or, get_elem?, set, take, All,
}
use mathlib.Core.Path.{subst}
use unix_like_operating_syst.Base.Results.{Result, ok, err}
use unix_like_operating_syst.Ktfs.{bit, bits_per_block, find_free_data_block}
use unix_like_operating_syst.Ktfs.Bits.{bits_from, bits_of, all_bits, length-bits_of, FirstFree}
use unix_like_operating_syst.Ktfs.Free.{Sized, Finds, find_free_data_block-Finds}

-- `byte |= select` and `byte &= ~select`, for the bit `k`
pub mark_bit : Bool → ℕ → ℕ → ℕ
mark_bit true k byte = if bit byte k == 0 then byte + 2 ^ k else byte
mark_bit false k byte = if bit byte k == 0 then byte else byte - 2 ^ k

abbrev pub mark_byte : Bool → ℕ → List ℕ → List ℕ
mark_byte status i block = set block (i / 8) (mark_bit status (i % 8) (get_or block (i / 8) 0))

abbrev pub mark_read : Bool → ℕ → Option (List ℕ) → Option (List ℕ)
mark_read status i none = none
mark_read status i (some block) = some (mark_byte status i block)

-- `set_data_block_status` and `set_inode_status`, each on the blocks of its bitmap
pub set_status : List (Option (List ℕ)) → ℕ → Bool → List (Option (List ℕ))
set_status blocks n status =
    let i = n / bits_per_block in
    set blocks i (mark_read status (n % bits_per_block) (get_or blocks i none))

-- Over a byte's range, every value is tried.
abbrev all_below : ℕ → (ℕ → Bool) → Bool
all_below zero p = true
all_below (suc n) p = p n && all_below n p

all_below_lem : (n : ℕ) (p : ℕ → Bool) (x : ℕ) → all_below n p ≡ true → x < n → p x ≡ true
all_below_lem zero p x h lt = absurd (omega arith)
all_below_lem (suc n) p x h lt = ground (arith, all_below_lem n p x)

abbrev same_bits : List Bool → List Bool → Bool
same_bits [] [] = true
same_bits [] (_ ∷ _) = false
same_bits (_ ∷ _) [] = false
same_bits (true ∷ xs) (true ∷ ys) = same_bits xs ys
same_bits (false ∷ xs) (false ∷ ys) = same_bits xs ys
same_bits (true ∷ xs) (false ∷ ys) = false
same_bits (false ∷ xs) (true ∷ ys) = false

same_bits_lem : (xs ys : List Bool) → same_bits xs ys ≡ true → xs ≡ ys
same_bits_lem [] [] e = refl
same_bits_lem [] (y ∷ ys) e = absurd (cc e)
same_bits_lem (x ∷ xs) [] e = absurd (cc e)
same_bits_lem (true ∷ xs) (true ∷ ys) e = ap (λ t. true ∷ t) (same_bits_lem xs ys e)
same_bits_lem (false ∷ xs) (false ∷ ys) e = ap (λ t. false ∷ t) (same_bits_lem xs ys e)
same_bits_lem (true ∷ xs) (false ∷ ys) e = absurd (cc e)
same_bits_lem (false ∷ xs) (true ∷ ys) e = absurd (cc e)

abbrev marks : Bool → ℕ → ℕ → Bool
marks status k byte =
    same_bits (bits_from 8 0 (mark_bit status k byte)) (set (bits_from 8 0 byte) k status)

mark_table : all_below 8 (λ k. all_below 256 (marks true k) && all_below 256 (marks false k)) ≡ true
unfolding mark_bit
mark_table = refl

both_true : (a b : Bool) → (a && b) ≡ true → (a ≡ true) × (b ≡ true)
both_true true true e = (refl, refl)
both_true true false e = absurd (cc e)
both_true false b e = absurd (cc e)

-- Marking a bit of a byte sets it among the byte's bits, and changes no other one.
pub bits_from-mark_bit :
    (status : Bool) (k byte : ℕ)
    → k < 8
    → byte < 256
    → bits_from 8 0 (mark_bit status k byte) ≡ set (bits_from 8 0 byte) k status
bits_from-mark_bit status k byte lt small =
    same_bits_lem (bits_from 8 0 (mark_bit status k byte)) (set (bits_from 8 0 byte) k status)
      (both status)
  where
    row : (all_below 256 (marks true k) && all_below 256 (marks false k)) ≡ true
    row =
        all_below_lem 8 (λ k. all_below 256 (marks true k) && all_below 256 (marks false k)) k
          mark_table lt

    rows : (all_below 256 (marks true k) ≡ true) × (all_below 256 (marks false k) ≡ true)
    rows = both_true (all_below 256 (marks true k)) (all_below 256 (marks false k)) row

    both : (status : Bool) → marks status k byte ≡ true
    both true = all_below_lem 256 (marks true k) byte rows.0 small
    both false = all_below_lem 256 (marks false k) byte rows.1 small
