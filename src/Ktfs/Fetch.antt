-- ===== src/Ktfs/Fetch.antt =====
-- `ktfs_fetch` of src/modified/sys/ktfs.c: reading a file through its direct, indirect and doubly
-- indirect blocks.
--
-- The list of open files stands for `g_open_head`. The locks are left out: each path takes the lock
-- of the list and the file's, and gives both back.
pub mod Flat
pub mod Content
pub mod Answer
use unix_like_operating_syst.Base.{
  ℕ, zero, suc, ◌+◌, ◌-◌, ◌*◌, ◌/◌, ◌%◌, ◌^◌, min, Option, none, some, List, [], ◌∷◌, ◌++◌, ltb,
  leb, ◌==◌, if◌then◌else◌, take, drop,
}
use unix_like_operating_syst.Base.Results.{Result, ok, err, Errno, enotsup}
use unix_like_operating_syst.Ktfs.Disk.{
  Disk, Superblock, superblock_of, Inode, get_inode, data_pos, words,
}

-- `struct ktfs_file`: the endpoint's address stands for the file's.
pub record File : Type 0 where
  pub uio : ℕ
  pub file_size : ℕ
  pub inode_num : ℕ
  pub pos : ℕ

-- The search of `g_open_head` for an endpoint.
unfoldable pub find_open : ℕ → List File → Option File
find_open uio [] = none
find_open uio (f ∷ fs) = let rest = find_open uio fs in if f.uio == uio then some f else rest

-- A change of the file found.
pub update_open : ℕ → File → List File → List File
update_open uio g [] = []
update_open uio g (f ∷ fs) =
    let rest = update_open uio g fs in if f.uio == uio then g ∷ fs else f ∷ rest

-- The local variables of the walk over the blocks, and the bytes put in the buffer.
pub record Cursor : Type 0 where
  pub walked : ℕ
  pub pos : ℕ
  pub copied : ℕ
  pub out : List ℕ

-- How a loop ends: at its end or by `break`, with a return, or with an error and so many blocks that
-- stay pinned.
pub data Walk : Type 0 where
  more : Cursor → Walk
  done : Cursor → Walk
  failed : Errno → ℕ → Walk

pub and_walk : Walk → (Cursor → Walk) → Walk
and_walk (more c) f = f c
and_walk (done c) f = done c
and_walk (failed e n) f = failed e n

-- One more block is pinned around a loop: released where it ends, but not on an error.
pub pinning : Walk → Walk
pinning (more c) = more c
pinning (done c) = done c
pinning (failed e n) = failed e (n + 1)

-- Where a copy begins in its block.
abbrev pub intra_offset : Cursor → ℕ
intra_offset c = if c.copied == 0 then c.pos % 512 else 0

-- What is copied out of a block.
pub advance : ℕ → Cursor → List ℕ → Cursor
advance to_read c block =
    let intra = intra_offset c in
    let chunk = min (512 - intra) (to_read - c.copied) in
    record {
      walked = c.walked + 512;
      pos = c.pos + chunk;
      copied = c.copied + chunk;
      out = c.out ++ take chunk (drop intra block);
    }

abbrev pub returned : ℕ → Cursor → Walk
returned to_read c = if c.copied == to_read then done c else more c

pub copy_block : ℕ → Cursor → Result (List ℕ) → Walk
copy_block to_read c (ok block) = returned to_read (advance to_read c block)
copy_block to_read c (err e) = failed e 0

module _ (disk : Disk) (sb : Superblock) (start to_read : ℕ) where
  -- The body of the three loops over data blocks.
  pub walk_block : ℕ → Cursor → Walk
  walk_block p c =
      if ltb c.walked start
      then more (record c { walked = c.walked + 512 })
      else copy_block to_read c (disk (data_pos sb p))

  -- The loop over the direct blocks.
  pub fetch_direct : List ℕ → Cursor → Walk
  fetch_direct [] c = more c
  fetch_direct (p ∷ ps) c =
      if leb to_read c.copied then more c else and_walk (walk_block p c) (fetch_direct ps)

  -- A loop over the pointers of a block.
  pub fetch_pointers : List ℕ → Cursor → Walk
  fetch_pointers [] c = more c
  fetch_pointers (p ∷ ps) c =
      if leb to_read c.copied then done c else and_walk (walk_block p c) (fetch_pointers ps)

  pub fetch_behind : Result (List ℕ) → Cursor → Walk
  fetch_behind (ok b) c = pinning (fetch_pointers (words 128 b) c)
  fetch_behind (err e) c = failed e 0

  -- The indirect block.
  pub fetch_indirect : ℕ → Cursor → Walk
  fetch_indirect zero c = more c
  fetch_indirect (suc i) c = fetch_behind (disk (data_pos sb (suc i))) c

  -- The loop over the pointers of a doubly indirect block.
  pub fetch_inner : List ℕ → Cursor → Walk
  fetch_inner [] c = more c
  fetch_inner (p ∷ ps) c =
      if leb to_read c.copied
      then done c
      else and_walk (fetch_behind (disk (data_pos sb p)) c) (fetch_inner ps)

  pub fetch_double : Result (List ℕ) → Cursor → Walk
  fetch_double (ok b) c = pinning (fetch_inner (words 128 b) c)
  fetch_double (err e) c = failed e 0

  -- The loop over the doubly indirect blocks.
  pub fetch_outer : List ℕ → Cursor → Walk
  fetch_outer [] c = more c
  fetch_outer (d ∷ ds) c =
      if leb to_read c.copied
      then more c
      else and_walk (fetch_double (disk (data_pos sb d)) c) (fetch_outer ds)

  pub fetch_blocks : Inode → Cursor → Walk
  fetch_blocks inode c =
      and_walk (fetch_direct inode.block c)
        (λ c1. and_walk (fetch_indirect inode.indirect c1) (fetch_outer inode.dindirect))

-- What a call gives back: its answer, the file, and the number of blocks that stay pinned.
abbrev pub Fetched : Type 0
Fetched = Result (List ℕ) × File × ℕ

pub finish : File → Walk → Fetched
finish f (more c) = (ok c.out, record f { pos = c.pos }, 0)
finish f (done c) = (ok c.out, record f { pos = c.pos }, 0)
finish f (failed e n) = (err e, f, n)

abbrev pub cursor_at : ℕ → Cursor
cursor_at pos = record { walked = 0; pos = pos; copied = 0; out = [] }

pub fetch_inode : Disk → Superblock → ℕ → File → Result Inode → Fetched
fetch_inode disk sb to_read f (err e) = (err e, f, 0)
fetch_inode disk sb to_read f (ok inode) =
    finish f (fetch_blocks disk sb (f.pos / 512 * 512) to_read inode (cursor_at f.pos))

pub fetch_super : Disk → ℕ → File → Result (List ℕ) → Fetched
fetch_super disk to_read f (err e) = (err e, f, 0)
fetch_super disk to_read f (ok b) =
    fetch_inode disk (superblock_of b) to_read f (get_inode disk (superblock_of b) f.inode_num)

-- `pos + toRead > size` is computed in 64 bits.
abbrev pub to_read_of : ℕ → File → ℕ
to_read_of len f = if ltb f.file_size ((f.pos + len) % 2 ^ 64) then f.file_size - f.pos else len

-- `ktfs_fetch` on the file found
pub fetch_file : Disk → ℕ → File → Fetched
fetch_file disk len f =
    if leb f.file_size f.pos then (ok [], f, 0) else fetch_super disk (to_read_of len f) f (disk 0)

abbrev pub back : ℕ → List File → Fetched → Result (List ℕ) × List File × ℕ
back uio files (r, f, pins) = (r, update_open uio f files, pins)

abbrev pub fetch_found : Disk → ℕ → ℕ → List File → Option File → Result (List ℕ) × List File × ℕ
fetch_found disk uio len files none = (err enotsup, files, 0)
fetch_found disk uio len files (some f) = back uio files (fetch_file disk len f)

-- `ktfs_fetch`: the bytes copied; their number is what it returns.
pub ktfs_fetch : Disk → List File → ℕ → ℕ → Result (List ℕ) × List File × ℕ
ktfs_fetch disk files uio len = fetch_found disk uio len files (find_open uio files)
