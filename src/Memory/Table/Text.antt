-- ===== src/Memory/Table/Text.antt =====
-- `validate_vstr` of src/modified/sys/memory.c: the pages of a string are tested up to its zero.
--
-- The bytes of physical memory are a function from a page number and an offset.
pub mod Answers
use mathlib.Core.Path.{subst}
use native.Mathlib.Decide.{dec_lt}
use unix_like_operating_syst.Base.{
  ℕ, zero, suc, ◌+◌, ◌-◌, ◌%◌, ◌^◌, ◌≤◌, ◌<◌, ◌≡◌, inl, inr, refl, sym, ap, ◌∙◌, Bool, true, false,
  ◌==◌, Option, none, some, arith, if◌then◌else◌, ne→==, Bool-cases,
}
use unix_like_operating_syst.Base.Results.{Result, ok, err, ebadfmt}
use unix_like_operating_syst.Memory.Table.{
  Flags, Pte, Mem, page_size, vpn, vpn0, is_leaf, slot, wellformed, has_flags, check_entry,
  check_slot, validate_page,
}
use unix_like_operating_syst.Memory.Table.Validate.{
  Usable, Usable-page, validate_page_iff, wellformed_iff, graded,
}

abbrev pub Bytes : Type 0
Bytes = ℕ → ℕ → ℕ

-- The loop over the bytes of a page, so many from an offset on: whether a zero comes.
pub has_zero : ℕ → (ℕ → ℕ) → ℕ → Bool
has_zero zero page i = false
has_zero (suc k) page i = let rest = has_zero k page (i + 1) in if page i == 0 then true else rest

abbrev pub scan_page : Bytes → ℕ → Pte → Result (Unit {0}) → Result Bool
scan_page bytes vma e (err x) = err x
scan_page bytes vma e (ok _) =
    ok (has_zero (page_size - vma % page_size) (bytes e.ppn) (vma % page_size))

abbrev pub check_string : Mem → Bytes → ℕ → Flags → Option ℕ → Result Bool
check_string mem bytes vma want none = err ebadfmt
check_string mem bytes vma want (some t0) =
    let e = mem t0 (vpn0 (vpn vma)) in scan_page bytes vma e (check_entry want e)

-- The body of the loop of `validate_vstr`: whether the string ends on the page.
pub string_page : Mem → Bytes → ℕ → Flags → ℕ → Result Bool
string_page mem bytes root want vma =
    if wellformed vma
    then check_string mem bytes vma want (slot mem root (vpn vma))
    else err ebadfmt

abbrev pub go_on : Option (Result (Unit {0})) → Result Bool → Option (Result (Unit {0}))
go_on rest (ok true) = some (ok tt)
go_on rest (ok false) = rest
go_on rest (err e) = some (err e)

-- The address of the next page.
abbrev pub next_page : ℕ → ℕ
next_page vma = (vma - vma % page_size + page_size) % 2 ^ 64

-- `validate_vstr`, on fuel; `none` means that the fuel ran out.
pub validate_vstr : ℕ → Mem → Bytes → ℕ → ℕ → Flags → Option (Result (Unit {0}))
validate_vstr zero mem bytes root vma want = none
validate_vstr (suc fuel) mem bytes root vma want =
    let rest = validate_vstr fuel mem bytes root (next_page vma) want in
    go_on rest (string_page mem bytes root want vma)
