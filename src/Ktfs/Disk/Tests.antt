-- ===== src/Ktfs/Disk/Tests.antt =====
-- The lookups of src/modified/sys/ktfs.c on a small disk.
use unix_like_operating_syst.Base.{
  ℕ, ◌+◌, ◌≡◌, refl, List, [], ◌∷◌, ◌++◌, arith, ◌==◌, if◌then◌else◌, replicate, length-replicate,
  take, drop, length,
}
use unix_like_operating_syst.Base.Results.{ok, err, eio}
use unix_like_operating_syst.Ktfs.Disk.{
  Disk, superblock_of, inode_of, get_inode, inode_pos, data_pos, and_then,
}
use unix_like_operating_syst.Ktfs.Disk.Pointers.{pointers}
use unix_like_operating_syst.Ktfs.Fetch.{File, find_open, update_open, ktfs_fetch}
use unix_like_operating_syst.Ktfs.Fetch.Answer.{Stored, content, ktfs_fetch-content}

abbrev word : ℕ → List ℕ
word n = n ∷ 0 ∷ 0 ∷ 0 ∷ []

-- One block of each bitmap and one of inodes.
abbrev super : List ℕ
super = word 8 ++ word 1 ++ word 1 ++ word 1 ++ word 0

-- A file of 600 bytes in the data blocks 5 and 6.
abbrev inodes : List ℕ
inodes = 88 ∷ 2 ∷ 0 ∷ 0 ∷ (word 5 ++ word 6 ++ word 0 ++ word 0 ++ word 0 ++ word 0 ++ word 0)

abbrev small_disk : Disk
small_disk pos =
    if pos == 0
    then ok super
    else if pos == 1536
    then ok inodes
    else if pos == 4608
    then ok (replicate 512 7)
    else if pos == 5120
    then ok (replicate 512 9)
    else err eio

abbrev small_file : File
small_file = record { uio = 1; file_size = 600; inode_num = 0; pos = 500 }

abbrev file_blocks : List (List ℕ)
file_blocks = replicate 512 7 ∷ replicate 512 9 ∷ []

small_file-Stored : Stored small_disk small_file file_blocks
unfolding superblock_of get_inode inode_pos inode_of and_then pointers data_pos
small_file-Stored = record {
  super = super;
  inode = inode_of inodes 0;
  super_read = refl;
  inode_read = refl;
  blocks_read = (refl, length-replicate {A = ℕ} 512 7, (refl, length-replicate {A = ℕ} 512 9, tt));
  enough = omega arith;
}

ktfs_fetch-content_example :
    let out = take 200 (drop 500 (content small_file file_blocks)) in
    ktfs_fetch small_disk (small_file ∷ []) 1 200
    ≡ (ok out, update_open 1 (record small_file { pos = 500 + length out }) (small_file ∷ []), 0)
unfolding find_open
ktfs_fetch-content_example =
    ktfs_fetch-content small_disk (small_file ∷ []) 1 200 small_file file_blocks refl
      small_file-Stored (omega arith) (omega arith)
