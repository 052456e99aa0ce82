-- ===== src/Memory/Pages/Free.antt =====
-- `free_phys_pages` of src/modified/sys/memory.c, against what was allocated.
use mathlib.Core.Path.{subst}
use unix_like_operating_syst.Base.{
  ℕ, ◌+◌, ◌≡◌, ◌≢◌, refl, sym, ap, inl, inr, false, ◌||◌, Option, none, some, List, [], ◌∷◌, arith,
  ◌==◌, Bool-cases, ==→eq, ne→==,
}
use unix_like_operating_syst.Memory.Pages.{Chunk, grow, alloc_pages, free_pages, free_page_count}
use unix_like_operating_syst.Memory.Pages.Owns.{in_range, owners, in_range-split}
use unix_like_operating_syst.Memory.Pages.Alloc.{alloc_pages-Allocated}

abbrev Grown : ℕ → ℕ → List Chunk → Option (List Chunk) → Type 0
Grown pp cnt cs none = Unit
Grown pp cnt cs (some cs') =
    ((p : ℕ) → owners p cs' ≡ owners p cs + in_range p pp cnt)
    × (free_page_count cs' ≡ free_page_count cs + cnt)

abbrev behind : Chunk → Option (List Chunk) → Option (List Chunk)
behind c none = none
behind c (some cs') = some (c ∷ cs')

behind-Grown :
    (pp cnt : ℕ) (c : Chunk) (cs : List Chunk) (r : Option (List Chunk))
    → Grown pp cnt cs r
    → Grown pp cnt (c ∷ cs) (behind c r)
unfolding free_page_count
behind-Grown pp cnt c cs none h = tt
behind-Grown pp cnt c cs (some cs') h = (λ p. omega (arith, h.0 p), omega (arith, h.1))

grow-cons :
    (pp cnt : ℕ) (c : Chunk) (cs : List Chunk)
    → (c.base + c.count == pp) ≡ false
    → grow pp cnt (c ∷ cs) ≡ behind c (grow pp cnt cs)
unfolding grow
grow-cons pp cnt c cs f = ground (arith, f)

grow-Grown : (pp cnt : ℕ) (cs : List Chunk) → Grown pp cnt cs (grow pp cnt cs)
unfolding grow free_page_count
grow-Grown pp cnt [] = tt
grow-Grown pp cnt (c ∷ cs) = elim (Bool-cases (c.base + c.count == pp)) [
  | inl t ↦
      let here : c.base + c.count ≡ pp = ==→eq (c.base + c.count) pp t in
      rw t (
        λ p.
            omega
              (arith, in_range-split p c.base c.count cnt, ap (λ (b : ℕ). in_range p b cnt) here),
        omega arith,
      )
  | inr f ↦
      subst (Grown pp cnt (c ∷ cs)) (sym (grow-cons pp cnt c cs f))
        (behind-Grown pp cnt c cs (grow pp cnt cs) (grow-Grown pp cnt cs))
]

abbrev Freed : ℕ → ℕ → List Chunk → List Chunk → Type 0
Freed pp cnt cs cs' =
    ((p : ℕ) → owners p cs' ≡ owners p cs + in_range p pp cnt)
    × (free_page_count cs' ≡ free_page_count cs + cnt)

merged :
    (pp cnt : ℕ) (cs : List Chunk) (r : Option (List Chunk))
    → grow pp cnt cs ≡ r
    → Grown pp cnt cs r
    → (pp == 0 || cnt == 0) ≡ false
    → Freed pp cnt cs (free_pages pp cnt cs)
unfolding free_pages free_page_count
merged pp cnt cs none e g f = rw (f, e) (λ p. omega arith, omega arith)
merged pp cnt cs (some cs') e g f = rw (f, e) g

-- Freeing pages (at least one, and not at the null address) gives each of them one owner more, and
-- changes no other page's; the number of free pages grows by theirs.
pub free_pages-owners :
    (pp cnt : ℕ) (cs : List Chunk)
    → pp ≢ 0
    → cnt ≢ 0
    → ((p : ℕ) → owners p (free_pages pp cnt cs) ≡ owners p cs + in_range p pp cnt)
      × (free_page_count (free_pages pp cnt cs) ≡ free_page_count cs + cnt)
unfolding free_pages
free_pages-owners pp cnt cs hp hc =
    merged pp cnt cs (grow pp cnt cs) refl (grow-Grown pp cnt cs)
      (rw (ne→== pp 0 hp, ne→== cnt 0 hc))

-- What was allocated, at least one page and not at the null address, can be given back: then every page has the owners that it had, and as many
-- pages are free as were.
pub free-alloc :
    (cnt : ℕ) (cs : List Chunk) {pp : ℕ} {cs' : List Chunk}
    → pp ≢ 0
    → cnt ≢ 0
    → alloc_pages cnt cs ≡ some (pp, cs')
    → ((p : ℕ) → owners p (free_pages pp cnt cs') ≡ owners p cs)
      × (free_page_count (free_pages pp cnt cs') ≡ free_page_count cs)
free-alloc cnt cs {pp} {cs'} hp hc e =
    let taken = alloc_pages-Allocated cnt cs e in
    let given = free_pages-owners pp cnt cs' hp hc in
    (λ p. omega (arith, given.0 p, taken.moved p), omega (arith, given.1, taken.counted))
