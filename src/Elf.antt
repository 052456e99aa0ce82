-- ===== src/Elf.antt =====
-- The program loader of src/modified/sys/elf.c.
--
-- The file is a state `F` with the two calls that the loader makes of its endpoint. What the loader
-- does to memory is a list of actions, in order.
pub mod Segment
pub mod Safe
mod Tests
use unix_like_operating_syst.Base.{
  ℕ, zero, suc, ◌+◌, ◌-◌, ◌*◌, ◌/◌, ◌%◌, ◌^◌, Bool, true, false, ◌&&◌, ◌||◌, List, [], ◌∷◌, ◌++◌,
  ltb, ◌==◌, if◌then◌else◌, length, get_or, take,
}
use unix_like_operating_syst.Base.Bytes.{u16, u32, u64}
use unix_like_operating_syst.Base.Results.{Errno, Result, ok, err, einval, enomem}

-- `struct elf64_ehdr`, the fields that the loader reads
pub record Header : Type 0 where
  pub ident : List ℕ
  pub type : ℕ
  pub machine : ℕ
  pub version : ℕ
  pub entry : ℕ
  pub phoff : ℕ
  pub ehsize : ℕ
  pub phentsize : ℕ
  pub phnum : ℕ

pub header_of : List ℕ → Header
header_of b = record {
  ident = take 16 b;
  type = u16 b 16;
  machine = u16 b 18;
  version = u32 b 20;
  entry = u64 b 24;
  phoff = u64 b 32;
  ehsize = u16 b 52;
  phentsize = u16 b 54;
  phnum = u16 b 56;
}

-- `struct elf64_phdr`
pub record Program : Type 0 where
  pub type : ℕ
  pub flags : ℕ
  pub offset : ℕ
  pub vaddr : ℕ
  pub filesz : ℕ
  pub memsz : ℕ

pub program_of : List ℕ → Program
program_of b = record {
  type = u32 b 0;
  flags = u32 b 4;
  offset = u64 b 8;
  vaddr = u64 b 16;
  filesz = u64 b 32;
  memsz = u64 b 40;
}

-- The tests of the header.
pub valid_header : Header → Bool
valid_header h =
    get_or h.ident 0 0 == 0x7f
    && get_or h.ident 1 0 == 69
    && get_or h.ident 2 0 == 76
    && get_or h.ident 3 0 == 70
    && get_or h.ident 4 0 == 2
    && get_or h.ident 5 0 == 1
    && get_or h.ident 6 0 == 1
    && h.type == 2
    && h.machine == 243
    && h.version == 1
    && h.ehsize == 64
    && h.phentsize == 56

-- `PTE_R`, `PTE_W` and `PTE_X` of a page
pub record Access : Type 0 where
  pub r : Bool
  pub w : Bool
  pub x : Bool

pub data Action : Type 0 where
  -- `alloc_and_map_range`, writable
  mapped : ℕ → ℕ → Action
  -- the bytes that `uio_read` puts at an address
  copied : ℕ → List ℕ → Action
  -- `memset` with zeros
  zeroed : ℕ → ℕ → Action
  -- `set_range_flags`
  flagged : ℕ → ℕ → Access → Action

-- `UMEM_START_VMA` and `UMEM_END_VMA`
abbrev pub umem_start : ℕ
umem_start = 0x0c0000000

abbrev pub umem_end : ℕ
umem_end = 0x100000000

-- Whether the range of a segment lies in user memory and does not wrap.
pub in_range : Program → Bool
in_range p =
    let end = (p.vaddr + p.memsz) % 2 ^ 64 in
    if ltb p.vaddr umem_start || ltb umem_end end || ltb end p.vaddr then false else true

-- The page of the segment's start, and the size of its pages.
abbrev pub first_page : Program → ℕ
first_page p = p.vaddr - p.vaddr % 4096

abbrev pub whole_pages : ℕ → ℕ
whole_pages n = if n % 4096 == 0 then n else (n / 4096 + 1) * 4096 % 2 ^ 64

abbrev pub pages_size : Program → ℕ
pages_size p = whole_pages ((p.memsz + p.vaddr % 4096) % 2 ^ 64)

-- A bit of the segment's flags.
abbrev pub flag : ℕ → ℕ → Bool
flag flags k = flags / 2 ^ k % 2 == 1

-- `PF_R`, `PF_W` and `PF_X`
abbrev pub access_of : ℕ → Access
access_of flags = record { r = flag flags 2; w = flag flags 1; x = flag flags 0 }

abbrev pub rest_zeroed : Program → List Action
rest_zeroed p =
    if ltb p.filesz p.memsz then zeroed (p.vaddr + p.filesz) (p.memsz - p.filesz) ∷ [] else []

abbrev pub Done : Type 0 → Type 0
Done F = Result (Unit {0}) × List Action × F

-- What is done before a step.
abbrev pub before : {F : Type 0} → List Action → Done F → Done F
before acts (r, later, f) = (r, acts ++ later, f)

pub and_load : {F : Type 0} → Done F → (F → Done F) → Done F
and_load (ok _, acts, f) g = before acts (g f)
and_load (err e, acts, f) g = (err e, acts, f)

abbrev pub with_entry : {F : Type 0} → ℕ → Done F → Result ℕ × List Action × F
with_entry entry (ok _, acts, f) = (ok entry, acts, f)
with_entry entry (err e, acts, f) = (err e, acts, f)

module _ {F : Type 0} (read : ℕ → F → Result (List ℕ) × F) (set_pos : ℕ → F → Result (Unit {0}) × F)
    (alloc : ℕ → ℕ → Bool) where
  -- The bytes of the segment have been read.
  abbrev pub segment_read : Program → Result (List ℕ) × F → Done F
  segment_read p (err e, f) = (err e, [], f)
  segment_read p (ok bytes, f) =
      if length bytes == p.filesz
      then (
        ok tt,
        copied p.vaddr bytes
            ∷ (rest_zeroed p ++ (flagged (first_page p) (pages_size p) (access_of p.flags) ∷ [])),
        f,
      )
      else (err einval, copied p.vaddr bytes ∷ [], f)

  abbrev pub segment_at : Program → Result (Unit {0}) × F → Done F
  segment_at p (err e, f) = (err e, [], f)
  segment_at p (ok _, f) = segment_read p (read p.filesz f)

  -- The body of the loop for a `PT_LOAD` segment; `alloc` says whether there is memory for a range.
  pub load_segment : Program → F → Done F
  load_segment p f =
      if in_range p
      then if alloc (first_page p) (pages_size p)
        then before (mapped (first_page p) (pages_size p) ∷ []) (segment_at p (set_pos p.offset f))
        else (err enomem, [], f)
      else (err einval, [], f)

  abbrev pub load_program : Program → F → Done F
  load_program p f = if p.type == 1 then load_segment p f else (ok tt, [], f)

  abbrev pub header_read : ℕ → Result (List ℕ) × F → Done F
  header_read size (err e, f) = (err e, [], f)
  header_read size (ok bytes, f) =
      if length bytes == size then load_program (program_of bytes) f else (err einval, [], f)

  abbrev pub header_at : ℕ → Result (Unit {0}) × F → Done F
  header_at size (err e, f) = (err e, [], f)
  header_at size (ok _, f) = header_read size (read size f)

  -- One round of the loop over the program headers.
  pub load_round : Header → ℕ → F → Done F
  load_round h i f = header_at h.phentsize (set_pos ((h.phoff + i * h.phentsize) % 2 ^ 64) f)

  -- The loop over the program headers, so many from one on.
  pub load_rounds : Header → ℕ → ℕ → F → Done F
  load_rounds h zero i f = (ok tt, [], f)
  load_rounds h (suc n) i f = and_load (load_round h i f) (load_rounds h n (i + 1))

  abbrev pub load_checked : Result (List ℕ) × F → Result ℕ × List Action × F
  load_checked (err e, f) = (err e, [], f)
  load_checked (ok bytes, f) =
      if length bytes == 64 && valid_header (header_of bytes)
      then with_entry (header_of bytes).entry
          (load_rounds (header_of bytes) (header_of bytes).phnum 0 f)
      else (err einval, [], f)

  -- `elf_load`: the entry point, and what was done to memory.
  pub elf_load : F → Result ℕ × List Action × F
  elf_load f = load_checked (read 64 f)
