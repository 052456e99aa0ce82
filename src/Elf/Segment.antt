-- ===== src/Elf/Segment.antt =====
-- A segment that src/modified/sys/elf.c loads: where its pages lie, and what its memory holds.
use unix_like_operating_syst.Base.{
  ℕ, ◌+◌, ◌*◌, ◌/◌, ◌%◌, ◌^◌, ◌≡◌, ◌<◌, ◌≤◌, ap, inl, inr, true, arith, ◌==◌, Bool-cases, ==→eq,
  ==→ne,
}
use native.Mathlib.Nat.{mod-eq_of_lt}
use unix_like_operating_syst.Elf.{
  Program, umem_start, umem_end, in_range, first_page, whole_pages, pages_size,
}

-- A range of whole pages of user memory.
pub record UserPages (a n : ℕ) : Type 0 where
  pub start_aligned : a % 4096 ≡ 0
  pub size_aligned : n % 4096 ≡ 0
  pub above : umem_start ≤ a
  pub below : a + n ≤ umem_end

pub record InRange (p : Program) : Type 0 where
  pub above : umem_start ≤ p.vaddr
  pub below : p.vaddr + p.memsz ≤ umem_end

-- The test of a segment's range, whose fields have 64 bits, lets only ranges of user memory pass.
pub in_range-InRange :
    (p : Program) → p.vaddr < 2 ^ 64 → p.memsz < 2 ^ 64 → in_range p ≡ true → InRange p
unfolding in_range
in_range-InRange p hv hm e =
    let end = (p.vaddr + p.memsz) % 2 ^ 64 in
    record { above = ground (arith, e); below = ground (arith, e, hv, hm) }

whole_pages_lem :
    (n : ℕ)
    → n ≤ umem_end
    → (whole_pages n % 4096 ≡ 0) × (n ≤ whole_pages n) × (whole_pages n < n + 4096)
whole_pages_lem n h = elim (Bool-cases (n % 4096 == 0)) [
  | inl y ↦ rw y (==→eq (n % 4096) 0 y, omega arith, omega arith)
  | inr f ↦
      let small : (n / 4096 + 1) * 4096 % 2 ^ 64 ≡ (n / 4096 + 1) * 4096 =
        mod-eq_of_lt (omega (arith, h)) in
      rw f (
        rw small
          (omega arith, omega (arith, ==→ne (n % 4096) 0 f), omega (arith, ==→ne (n % 4096) 0 f)))
]

-- The pages of a segment in range are pages of user memory, and hold the segment.
pub pages-UserPages :
    (p : Program)
    → InRange p
    → UserPages (first_page p) (pages_size p) × (p.vaddr + p.memsz ≤ first_page p + pages_size p)
pages-UserPages p r =
    let n = p.memsz + p.vaddr % 4096 in
    let small : n % 2 ^ 64 ≡ n = mod-eq_of_lt (omega (arith, r.above, r.below)) in
    let (aligned, le, lt) = whole_pages_lem n (omega (arith, r.above, r.below)) in
    let size : pages_size p ≡ whole_pages n = ap whole_pages small in
    (
      record {
        start_aligned = omega arith;
        size_aligned = omega (arith, size, aligned);
        above = omega (arith, r.above);
        below = omega (arith, size, aligned, lt, r.above, r.below);
      },
      omega (arith, size, le),
    )
