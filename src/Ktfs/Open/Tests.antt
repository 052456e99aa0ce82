-- ===== src/Ktfs/Open/Tests.antt =====
-- Opening a file and reading the listing of src/modified/sys/ktfs.c on a directory of two entries.
use unix_like_operating_syst.Base.{
  ℕ, ◌+◌, ◌-◌, ◌/◌, ◌≡◌, refl, some, List, [], ◌∷◌, ◌++◌, arith, ◌==◌, if◌then◌else◌, length,
  replicate, take,
}
use unix_like_operating_syst.Base.Results.{ok, err, eio}
use unix_like_operating_syst.Ktfs.Disk.{
  Disk, superblock_of, inode_of, get_inode, inode_pos, dentry_of, data_pos, and_then,
}
use unix_like_operating_syst.Ktfs.Disk.Pointers.{pointers}
use unix_like_operating_syst.Ktfs.Open.{c_name, ktfs_open}
use unix_like_operating_syst.Ktfs.Open.Finds.{
  entries, first_named, opened_named, Directory, ktfs_open-first_named,
}
use unix_like_operating_syst.Ktfs.Open.Listing.{Root, ktfs_listing_read, ktfs_listing_read-entry}

abbrev word : ℕ → List ℕ
word n = n ∷ 0 ∷ 0 ∷ 0 ∷ []

abbrev super : List ℕ
super = word 8 ++ word 1 ++ word 1 ++ word 1 ++ word 0

abbrev inode_words : ℕ → ℕ → List ℕ
inode_words size block = word size ++ word block ++ (replicate 24 0)

-- The root directory with two entries in the data block 5, and an empty file.
abbrev inodes : List ℕ
inodes = inode_words 32 5 ++ inode_words 0 0

abbrev entry_bytes : ℕ → ℕ → List ℕ
entry_bytes n c = n ∷ 0 ∷ c ∷ replicate 13 0

-- The files `a` and `b`.
abbrev dir_block : List ℕ
dir_block = entry_bytes 1 97 ++ entry_bytes 1 98 ++ replicate 480 0

abbrev dir_disk : Disk
dir_disk pos =
    if pos == 0
    then ok super
    else if pos == 1536
    then ok inodes
    else if pos == 4608
    then ok dir_block
    else err eio

dir_disk-Directory : Directory dir_disk (dir_block ∷ [])
unfolding superblock_of get_inode inode_pos inode_of and_then pointers data_pos
dir_disk-Directory = record {
  super = super;
  root = inode_of inodes 0;
  super_read = refl;
  root_read = refl;
  blocks_read = (refl, refl, tt);
  enough = omega arith;
}

ktfs_open-first_named_example :
    ktfs_open dir_disk (some (98 ∷ [])) 1 []
    ≡ opened_named dir_disk 1 [] (
        first_named (98 ∷ []) (take (dir_disk-Directory.root.size / 16) (entries (dir_block ∷ []))))
ktfs_open-first_named_example =
    ktfs_open-first_named dir_disk 98 [] 1 [] (dir_block ∷ []) dir_disk-Directory

abbrev dir_root : Root dir_disk
unfolding superblock_of get_inode inode_pos inode_of and_then
dir_root = record {
  super = super;
  root = inode_of inodes 0;
  super_read = refl;
  root_read = refl;
  direct = refl;
  indirect = λ h. absurd (omega (arith, h));
  dindirect = λ h. absurd (omega (arith, h));
  bounded = omega arith;
}

ktfs_listing_read-entry_example :
    let name = c_name (dentry_of 1 dir_block).name in
    ktfs_listing_read dir_disk 16 1
    ≡ (ok (length name + 1, take 16 name ++ replicate (16 - length name) 0), 2)
unfolding superblock_of inode_of pointers data_pos c_name dentry_of dir_root
ktfs_listing_read-entry_example =
    ktfs_listing_read-entry dir_disk dir_root 16 1 5 dir_block (omega arith) refl refl (omega arith)
