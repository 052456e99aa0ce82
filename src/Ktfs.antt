-- ===== src/Ktfs.antt =====
-- src/modified/sys/ktfs.c: the search of the bitmaps for a free inode and a free data block.
--
-- What `cache_get_block` gives for each bitmap block is an argument: its bytes, or none where it
-- fails. Beside its answer, a search says which bitmap blocks it leaves pinned.
pub mod Disk
pub mod Fetch
pub mod Open
pub mod Bits
pub mod Free
pub mod Status
mod Tests
use unix_like_operating_syst.Base.{
  ℕ, zero, suc, ◌+◌, ◌*◌, ◌/◌, ◌%◌, ◌^◌, Option, none, some, List, [], ◌∷◌, ◌==◌, if◌then◌else◌,
}
use unix_like_operating_syst.Base.Results.{Result, ok, err, enotsup}

-- The bits of one bitmap block, `KTFS_BLKSZ * 8`.
abbrev pub bits_per_block : ℕ
bits_per_block = 4096

-- `byte & (1u << k)`, as a bit
abbrev pub bit : ℕ → ℕ → ℕ
bit byte k = byte / 2 ^ k % 2

-- The loop over the bits of a byte, so many from one on.
pub scan_bits : ℕ → ℕ → ℕ → Option ℕ
scan_bits zero k byte = none
scan_bits (suc n) k byte = if bit byte k == 0 then some k else scan_bits n (k + 1) byte

abbrev pub in_byte : ℕ → Option ℕ → Option ℕ → Option ℕ
in_byte j (some k) rest = some (j * 8 + k)
in_byte j none rest = rest

-- The loop over the bytes of a block.
pub scan_bytes : ℕ → List ℕ → Option ℕ
scan_bytes j [] = none
scan_bytes j (byte ∷ bytes) = in_byte j (scan_bits 8 0 byte) (scan_bytes (j + 1) bytes)

abbrev pub data_in_block : ℕ → Option ℕ → Result ℕ × List ℕ → Result ℕ × List ℕ
data_in_block i (some r) rest = (ok (i * bits_per_block + r), [])
data_in_block i none rest = rest

-- `find_free_data_block`, from a bitmap block on: each block is released before the next one.
pub find_data : ℕ → List (Option (List ℕ)) → Result ℕ × List ℕ
find_data i [] = (err enotsup, [])
find_data i (none ∷ blocks) = (err enotsup, [])
find_data i (some block ∷ blocks) = data_in_block i (scan_bytes 0 block) (find_data (i + 1) blocks)

pub find_free_data_block : List (Option (List ℕ)) → Result ℕ × List ℕ
find_free_data_block blocks = find_data 0 blocks

abbrev pub inode_in_block : ℕ → Option ℕ → Result ℕ × List ℕ → Result ℕ × List ℕ
inode_in_block i (some r) rest = (ok (i * bits_per_block + r), [])
inode_in_block i none rest = (rest.0, i ∷ rest.1)

-- `find_free_inode`, from a bitmap block on: only the block with the bit found is released.
pub find_inode : ℕ → List (Option (List ℕ)) → Result ℕ × List ℕ
find_inode i [] = (err enotsup, [])
find_inode i (none ∷ blocks) = (err enotsup, [])
find_inode i (some block ∷ blocks) =
    inode_in_block i (scan_bytes 0 block) (find_inode (i + 1) blocks)

pub find_free_inode : List (Option (List ℕ)) → Result ℕ × List ℕ
find_free_inode blocks = find_inode 0 blocks
