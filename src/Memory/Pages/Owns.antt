-- ===== src/Memory/Pages/Owns.antt =====
-- Which pages the chunks of src/modified/sys/memory.c own.
use unix_like_operating_syst.Base.{
  ℕ, zero, suc, ◌+◌, ◌≤◌, ◌≡◌, ◌&&◌, some, List, [], ◌∷◌, arith, ltb, leb, if◌then◌else◌, set,
  get_elem?,
}
use unix_like_operating_syst.Memory.Pages.{Chunk, remove_at}

-- 1 for a page of the `n` pages from `base` on, 0 for any other.
abbrev pub in_range : ℕ → ℕ → ℕ → ℕ
in_range p base n = if leb base p && ltb p (base + n) then 1 else 0

-- How many chunks own a page.
abbrev pub owners : ℕ → List Chunk → ℕ
owners p [] = 0
owners p (c ∷ cs) = in_range p c.base c.count + owners p cs

-- No page has two owners.
abbrev pub NoOverlap : List Chunk → Type 0
NoOverlap cs = (p : ℕ) → owners p cs ≤ 1

pub in_range-split :
    (p base m n : ℕ) → in_range p base (m + n) ≡ in_range p base m + in_range p (base + m) n
in_range-split p base m n = ground arith

pub owners-remove_at :
    (p : ℕ) (cs : List Chunk) (i : ℕ) {c : Chunk}
    → get_elem? cs i ≡ some c
    → owners p cs ≡ owners p (remove_at i cs) + in_range p c.base c.count
owners-remove_at p [] i e = cc e
owners-remove_at p (x ∷ cs) zero e = ground arith
owners-remove_at p (x ∷ cs) (suc i) {c} e = omega (arith, owners-remove_at p cs i {c = c} e)

pub owners-set :
    (p : ℕ) (cs : List Chunk) (i : ℕ) {c : Chunk} (c' : Chunk)
    → get_elem? cs i ≡ some c
    → owners p cs + in_range p c'.base c'.count ≡ owners p (set cs i c') + in_range p c.base c.count
owners-set p [] i c' e = cc e
owners-set p (x ∷ cs) zero c' e = ground arith
owners-set p (x ∷ cs) (suc i) {c} c' e = omega (arith, owners-set p cs i {c = c} c' e)
