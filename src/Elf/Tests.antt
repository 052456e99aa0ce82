-- ===== src/Elf/Tests.antt =====
-- The loader of src/modified/sys/elf.c on a small program of one segment.
use unix_like_operating_syst.Base.{
  ℕ, ◌+◌, ◌≡◌, refl, Bool, true, ◌&&◌, List, [], ◌∷◌, ◌++◌, ltb, take, drop, replicate,
}
use unix_like_operating_syst.Base.Results.{Result, ok}
use unix_like_operating_syst.Elf.{
  elf_load, valid_header, header_of, load_rounds, and_load, load_round, program_of, load_segment,
  in_range,
}

-- The 64 bytes of the header, the program header, and four bytes of program.
abbrev image : List ℕ
image =
    (127 ∷ 69 ∷ 76 ∷ 70 ∷ 2 ∷ 1 ∷ 1 ∷ replicate 9 0)
    ++ (2 ∷ 0 ∷ 243 ∷ 0 ∷ 1 ∷ 0 ∷ 0 ∷ 0 ∷ [])
    ++ (0 ∷ 0 ∷ 0 ∷ 192 ∷ 0 ∷ 0 ∷ 0 ∷ 0 ∷ [])
    ++ (64 ∷ replicate 19 0)
    ++ (64 ∷ 0 ∷ 56 ∷ 0 ∷ 1 ∷ replicate 7 0)
    ++ (1 ∷ 0 ∷ 0 ∷ 0 ∷ 5 ∷ 0 ∷ 0 ∷ 0 ∷ 120 ∷ replicate 7 0)
    ++ (0 ∷ 0 ∷ 0 ∷ 192 ∷ replicate 12 0)
    ++ (4 ∷ replicate 7 0)
    ++ (8 ∷ replicate 15 0)
    ++ (19 ∷ 0 ∷ 0 ∷ 0 ∷ [])

-- A file is a position in the image.
abbrev read_image : ℕ → ℕ → Result (List ℕ) × ℕ
read_image n pos = (ok (take n (drop pos image)), pos + n)

abbrev seek : ℕ → ℕ → Result (Unit {0}) × ℕ
seek n pos = (ok tt, n)

abbrev are_small : List ℕ → Bool
are_small [] = true
are_small (x ∷ xs) = ltb x 256 && are_small xs

loads_entry : (elf_load read_image seek (λ a n. true) 0).0 ≡ ok 0xc0000000
unfolding elf_load valid_header header_of load_rounds and_load load_round program_of load_segment
    in_range
loads_entry = refl
