-- ===== src/Memory/Pages/Tests.antt =====
-- The page allocator of src/modified/sys/memory.c on a list of two chunks.
use unix_like_operating_syst.Base.{ℕ, ◌+◌, ◌≤◌, ◌<◌, ◌≡◌, ◌≢◌, refl, some, List, [], ◌∷◌, arith}
use unix_like_operating_syst.Memory.Pages.{
  Chunk, free_page_count, scan, carve, alloc_pages, free_pages,
}
use unix_like_operating_syst.Memory.Pages.Owns.{owners, NoOverlap}
use unix_like_operating_syst.Memory.Pages.Alloc.{
  Allocated, alloc_pages-Allocated, alloc_pages-NoOverlap,
}
use unix_like_operating_syst.Memory.Pages.Free.{free-alloc}

abbrev two_chunks : List Chunk
two_chunks = record { base = 10; count = 8 } ∷ record { base = 30; count = 3 } ∷ []

abbrev left_chunks : List Chunk
left_chunks = record { base = 10; count = 8 } ∷ record { base = 30; count = 1 } ∷ []

two_chunks-taken : alloc_pages 2 two_chunks ≡ some (31, left_chunks)
unfolding alloc_pages scan carve
two_chunks-taken = refl

two_chunks-NoOverlap : NoOverlap two_chunks
two_chunks-NoOverlap p = ground arith

alloc_pages-Allocated_example : Allocated 2 two_chunks 31 left_chunks
alloc_pages-Allocated_example = alloc_pages-Allocated 2 two_chunks two_chunks-taken

alloc_pages-NoOverlap_example :
    NoOverlap left_chunks × ((p : ℕ) → 31 ≤ p → p < 31 + 2 → owners p left_chunks ≡ 0)
alloc_pages-NoOverlap_example =
    alloc_pages-NoOverlap 2 two_chunks two_chunks-NoOverlap two_chunks-taken

abbrev taken : ℕ
taken = 31

abbrev pages : ℕ
pages = 2

not_null : taken ≢ 0
not_null e = omega (arith, e)

not_zero : pages ≢ 0
not_zero e = omega (arith, e)

free-alloc_example :
    ((p : ℕ) → owners p (free_pages 31 2 left_chunks) ≡ owners p two_chunks)
    × (free_page_count (free_pages 31 2 left_chunks) ≡ free_page_count two_chunks)
free-alloc_example = free-alloc 2 two_chunks not_null not_zero two_chunks-taken
