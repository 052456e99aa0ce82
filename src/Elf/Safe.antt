-- ===== src/Elf/Safe.antt =====
-- The loader of src/modified/sys/elf.c touches user memory only.
use unix_like_operating_syst.Base.{ℕ, ◌+◌, ◌≡◌, ◌<◌, ◌≤◌, true, List, length, All}
use unix_like_operating_syst.Base.Results.{Result, ok, err}
use unix_like_operating_syst.Elf.{
  header_of, valid_header, Action, mapped, copied, zeroed, flagged, umem_start, umem_end, Done,
}
use unix_like_operating_syst.Elf.Segment.{UserPages}

-- What an action may touch: whole pages of user memory are mapped and get their flags, zeros go into
-- user memory, and a copy begins there.
abbrev pub Safe : Action → Type 0
Safe (mapped a n) = UserPages a n
Safe (copied a bytes) = (umem_start ≤ a) × (a ≤ umem_end)
Safe (zeroed a n) = (umem_start ≤ a) × (a + n ≤ umem_end)
Safe (flagged a n access) = UserPages a n

abbrev AllSafe : {F : Type 0} → Done F → Type 0
AllSafe (r, acts, f) = All Safe acts

-- What a read gives are bytes.
abbrev pub AreBytes : Result (List ℕ) → Type 0
AreBytes (ok bytes) = All (λ x. x < 256) bytes
AreBytes (err e) = Unit

-- What `elf_load` comes to: an entry point only for a file that begins with a valid header, which
-- names it, and in all cases nothing but safe actions.
abbrev pub Loads : {F : Type 0} → Result (List ℕ) → Result ℕ × List Action × F → Type 0
Loads (ok bytes) (ok entry, acts, f) =
    (length bytes ≡ 64)
    × (valid_header (header_of bytes) ≡ true)
    × (entry ≡ (header_of bytes).entry)
    × All Safe acts
Loads (err e) (ok entry, acts, f) = ⊥
Loads first (err e, acts, f) = All Safe acts
