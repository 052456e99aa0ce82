-- ===== src/Memory/Pages.antt =====
-- The page allocator of src/modified/sys/memory.c: a list of chunks of consecutive free pages.
--
-- Addresses are page numbers, so page 0 stands for the null pointer. A chunk's header lies in its
-- first page, so its base is its address. `none` is a panic. `page_lock` makes each call one step.
pub mod Owns
pub mod Alloc
pub mod Free
mod Tests
use unix_like_operating_syst.Base.{
  ℕ, zero, suc, ◌+◌, ◌-◌, ◌≡◌, Bool, true, false, ◌&&◌, ◌||◌, Option, none, some, List, [], ◌∷◌,
  ltb, leb, ◌==◌, if◌then◌else◌, set,
}

-- `struct page_chunk`
pub record Chunk : Type 0 where
  pub base : ℕ
  pub count : ℕ

-- Whether the scan prefers a chunk to the best one so far.
abbrev pub is_better : ℕ → Option (ℕ × Chunk) → Chunk → Bool
is_better cnt none c = leb cnt c.count
is_better cnt (some (i, b)) c = leb cnt c.count && ltb c.count b.count

-- The scan of `alloc_phys_pages`: the best chunk and its place in the list.
pub scan : ℕ → ℕ → Option (ℕ × Chunk) → List Chunk → Option (ℕ × Chunk)
scan cnt i best [] = best
scan cnt i best (c ∷ cs) = scan cnt (i + 1) (if is_better cnt best c then some (i, c) else best) cs

abbrev pub remove_at : ℕ → List Chunk → List Chunk
remove_at i [] = []
remove_at zero (c ∷ cs) = cs
remove_at (suc i) (c ∷ cs) = c ∷ remove_at i cs

-- Taking pages from the chunk that was found: all of it, or its last pages.
pub carve : ℕ → List Chunk → Option (ℕ × Chunk) → Option (ℕ × List Chunk)
carve cnt cs none = none
carve cnt cs (some (i, best)) =
    if best.count == cnt
    then some (best.base, remove_at i cs)
    else some (best.base + (best.count - cnt), set cs i (record best { count = best.count - cnt }))

-- `alloc_phys_pages`
pub alloc_pages : ℕ → List Chunk → Option (ℕ × List Chunk)
alloc_pages cnt [] = none
alloc_pages cnt (c ∷ cs) = carve cnt (c ∷ cs) (scan cnt 0 none (c ∷ cs))

-- `alloc_phys_page`
pub alloc_page : List Chunk → Option (ℕ × List Chunk)
alloc_page cs = alloc_pages 1 cs

-- The walk of `free_phys_pages`: the first chunk that ends where the freed pages begin grows.
pub grow : ℕ → ℕ → List Chunk → Option (List Chunk)
grow pp cnt [] = none
grow pp cnt (c ∷ cs) =
    let rest = grow pp cnt cs in
    if c.base + c.count == pp
    then some (record c { count = c.count + cnt } ∷ cs)
    else elim rest [ none ↦ none | some cs' ↦ some (c ∷ cs') ]

-- `free_phys_pages`
pub free_pages : ℕ → ℕ → List Chunk → List Chunk
free_pages pp cnt cs =
    if pp == 0 || cnt == 0
    then cs
    else elim (grow pp cnt cs) [ none ↦ record { base = pp; count = cnt } ∷ cs | some cs' ↦ cs' ]

-- `free_phys_page`
pub free_page : ℕ → List Chunk → List Chunk
free_page pp cs = free_pages pp 1 cs

-- `free_phys_page_count`
pub free_page_count : List Chunk → ℕ
free_page_count [] = 0
free_page_count (c ∷ cs) = c.count + free_page_count cs
