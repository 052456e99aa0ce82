-- ===== src/Ktfs/Disk.antt =====
-- The layout of the disk of src/modified/sys/ktfs.h, and the lookups of src/modified/sys/ktfs.c in
-- it: an inode, and an entry of the directory.
--
-- A disk is what `cache_get_block` gives at each position: the bytes of a block, or its error. Block
-- positions are computed in 32 bits, as the source does.
pub mod Pointers
pub mod Dentry
mod Tests
use unix_like_operating_syst.Base.{
  ℕ, zero, suc, ◌+◌, ◌-◌, ◌*◌, ◌/◌, ◌%◌, ◌^◌, Bool, ◌&&◌, not, Option, none, some, List, [], ◌∷◌,
  ltb, leb, ◌==◌, if◌then◌else◌, get_or, take, drop,
}
use unix_like_operating_syst.Base.Bytes.{u16, u32}
use unix_like_operating_syst.Base.Results.{Result, ok, err, enotsup, enoent}

abbrev pub Disk : Type 0
Disk = ℕ → Result (List ℕ)

-- `struct ktfs_superblock`
pub record Superblock : Type 0 where
  pub block_count : ℕ
  pub inode_bitmap_block_count : ℕ
  pub bitmap_block_count : ℕ
  pub inode_block_count : ℕ
  pub root_directory_inode : ℕ

unfoldable pub superblock_of : List ℕ → Superblock
superblock_of b = record {
  block_count = u32 b 0;
  inode_bitmap_block_count = u32 b 4;
  bitmap_block_count = u32 b 8;
  inode_block_count = u32 b 12;
  root_directory_inode = u16 b 16;
}

-- `struct ktfs_inode`
pub record Inode : Type 0 where
  pub size : ℕ
  pub block : List ℕ
  pub indirect : ℕ
  pub dindirect : List ℕ

-- The inode of a number in its block.
unfoldable pub inode_of : List ℕ → ℕ → Inode
inode_of b i =
    let at = i * 32 in
    record {
      size = u32 b at;
      block = u32 b (at + 4) ∷ u32 b (at + 8) ∷ u32 b (at + 12) ∷ u32 b (at + 16) ∷ [];
      indirect = u32 b (at + 20);
      dindirect = u32 b (at + 24) ∷ u32 b (at + 28) ∷ [];
    }

-- `struct ktfs_dir_entry`
pub record DirEntry : Type 0 where
  pub inode : ℕ
  pub name : List ℕ

-- The entry of an index in its block.
unfoldable pub dentry_of : ℕ → List ℕ → DirEntry
dentry_of i b = record { inode = u16 b (i * 16); name = take 14 (drop (i * 16 + 2) b) }

unfoldable pub and_then {ℓ κ} : {A : Type ℓ} {B : Type κ} → Result A → (A → Result B) → Result B
and_then (ok a) f = f a
and_then (err e) f = err e

-- The position of a data block, `(1 + K + B + N + dataIdx) * KTFS_BLKSZ`
unfoldable pub data_pos : Superblock → ℕ → ℕ
data_pos sb i =
    (1 + sb.inode_bitmap_block_count + sb.bitmap_block_count + sb.inode_block_count + i)
    * 512
    % 2 ^ 32

-- The position of the block of an inode.
unfoldable pub inode_pos : Superblock → ℕ → ℕ
inode_pos sb n =
    (1 + sb.inode_bitmap_block_count + sb.bitmap_block_count) * 512 % 2 ^ 32 + n / 16 * 512

-- `get_inode`
unfoldable pub get_inode : Disk → Superblock → ℕ → Result Inode
get_inode disk sb n = and_then (disk (inode_pos sb n)) (λ b. ok (inode_of b (n % 16)))

-- So many pointers of a block, `(uint32_t *)temp`
abbrev pub words : ℕ → List ℕ → List ℕ
words zero b = []
words (suc n) b = u32 b 0 ∷ words n (drop 4 b)

-- Subtraction on `uint32_t`
abbrev pub sub32 : ℕ → ℕ → ℕ
sub32 a b = (a + 2 ^ 32 - b) % 2 ^ 32

-- The entry of an index in the data block of a number.
unfoldable pub entry_in : Disk → Superblock → ℕ → ℕ → Result DirEntry
entry_in disk sb data_idx i = and_then (disk (data_pos sb data_idx)) (λ b. ok (dentry_of i b))

-- The entry of an index behind an indirect block.
pub entry_behind : Disk → Superblock → ℕ → ℕ → Result DirEntry
entry_behind disk sb ind index =
    and_then (disk (data_pos sb ind))
      (λ b. entry_in disk sb (get_or (words 128 b) (index / 32) 0) (index % 32))

-- The loop over the doubly indirect blocks.
pub entry_dindirect : Disk → Superblock → List ℕ → ℕ → Result DirEntry
entry_dindirect disk sb [] index = err enoent
entry_dindirect disk sb (d ∷ ds) index =
    let rest = entry_dindirect disk sb ds (index - 524288) in
    if leb 524288 index
    then rest
    else if d == 0
    then err enotsup
    else and_then (disk (data_pos sb d))
        (λ b. entry_behind disk sb (get_or (words 128 b) (index / 4096) 0) (index % 4096))

-- `get_dentry_at_index`, with 32 entries in a block and 128 pointers
pub get_dentry_at_index : Disk → Superblock → Inode → ℕ → Result DirEntry
get_dentry_at_index disk sb root index =
    if ltb index 128
    then entry_in disk sb (get_or root.block (index / 32) 0) (index % 32)
    else let later = index - 128 in
      if ltb later 4096 && not (root.indirect == 0)
      then entry_behind disk sb root.indirect later
      else entry_dindirect disk sb root.dindirect (sub32 later 4096)
