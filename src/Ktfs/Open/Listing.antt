-- ===== src/Ktfs/Open/Listing.antt =====
-- `ktfs_listing_read` of src/modified/sys/ktfs.c: one name of the directory for each read.
use unix_like_operating_syst.Base.{
  ℕ, ◌+◌, ◌-◌, ◌/◌, ◌%◌, ◌^◌, ◌≡◌, ◌≢◌, ◌<◌, refl, ap, ◌∙◌, false, some, List, [], ◌++◌, arith, leb,
  ltb, ◌==◌, if◌then◌else◌, length, take, replicate, get_elem?, All, ne→==, le→ltb,
}
use unix_like_operating_syst.Base.Results.{Result, ok, err, enotsup}
use unix_like_operating_syst.Filesys.{Name}
use unix_like_operating_syst.Ktfs.Disk.{
  Disk, Superblock, superblock_of, Inode, get_inode, DirEntry, dentry_of, data_pos, entry_in,
  get_dentry_at_index, and_then,
}
use unix_like_operating_syst.Ktfs.Disk.Pointers.{pointers}
use unix_like_operating_syst.Ktfs.Disk.Dentry.{get_dentry_at_index_lem}
use unix_like_operating_syst.Ktfs.Open.{c_name}

-- What a read gives: the length answered with the bytes put in the buffer, and the listing's index
-- after it. Which blocks are pinned meanwhile is left out.
abbrev pub ListingRead : Type 0
ListingRead = Result (ℕ × List ℕ) × ℕ

-- The name in the buffer, as `strncpy` puts it there.
abbrev pub listed_name : ℕ → ℕ → Name → ListingRead
listed_name bufsz index name = if ltb bufsz (length name + 1) then (err enotsup, index) else (
  ok (length name + 1, take bufsz name ++ replicate (bufsz - length name) 0),
  (index + 1) % 2 ^ 32,
)

abbrev pub listed_entry : ℕ → ℕ → Result DirEntry → ListingRead
listed_entry bufsz index (err e) = (err e, index)
listed_entry bufsz index (ok e) = listed_name bufsz index (c_name e.name)

abbrev pub listed_root : Disk → Superblock → ℕ → ℕ → Result Inode → ListingRead
listed_root disk sb bufsz index (err e) = (err e, index)
listed_root disk sb bufsz index (ok root) =
    if leb (root.size / 16) index
    then (ok (0, []), index)
    else listed_entry bufsz index (get_dentry_at_index disk sb root index)

abbrev pub listed_super : Disk → ℕ → ℕ → Result (List ℕ) → ListingRead
listed_super disk bufsz index (err e) = (err e, index)
listed_super disk bufsz index (ok b) =
    let sb = superblock_of b in
    listed_root disk sb bufsz index (get_inode disk sb sb.root_directory_inode)

-- `ktfs_listing_read` of a listing at an index
pub ktfs_listing_read : Disk → ℕ → ℕ → ListingRead
ktfs_listing_read disk bufsz index =
    if bufsz == 0 then (ok (0, []), index) else listed_super disk bufsz index (disk 0)

-- A root directory that can be read, whose pointer blocks are not 0 where they are needed.
pub record Root (disk : Disk) : Type 0 where
  pub super : List ℕ
  pub root : Inode
  pub super_read : disk 0 ≡ ok super
  pub root_read :
      get_inode disk (superblock_of super) (superblock_of super).root_directory_inode ≡ ok root
  pub direct : length root.block ≡ 4
  pub indirect : 2048 < root.size → root.indirect ≢ 0
  pub dindirect : 67584 < root.size → All (λ d. d ≢ 0) root.dindirect
  pub bounded : root.size < 2 ^ 32

-- For an index of the directory whose block is known and can be read, `ktfs_listing_read` with room
-- for the name and its zero gives the name of the entry of that index with a zero behind it, answers
-- its length with the zero, and goes on to the next index.
pub ktfs_listing_read-entry :
    (disk : Disk) (d : Root disk) (bufsz index p : ℕ) (b : List ℕ)
    → index < d.root.size / 16
    → get_elem? (pointers disk (superblock_of d.super) d.root) (index / 32) ≡ some p
    → disk (data_pos (superblock_of d.super) p) ≡ ok b
    → length (c_name (dentry_of (index % 32) b).name) < bufsz
    → let name = c_name (dentry_of (index % 32) b).name in
      ktfs_listing_read disk bufsz index
      ≡ (ok (length name + 1, take bufsz name ++ replicate (bufsz - length name) 0), index + 1)
unfolding ktfs_listing_read entry_in and_then
ktfs_listing_read-entry disk d bufsz index p b lt at read fits =
    let sb = superblock_of d.super in
    let name = c_name (dentry_of (index % 32) b).name in
    let some_room : (bufsz == 0) ≡ false = ne→== bufsz 0 (omega (arith, fits)) in
    let before : leb (d.root.size / 16) index ≡ false = ground (arith, lt) in
    let room : ltb bufsz (length name + 1) ≡ false =
      le→ltb bufsz (length name + 1) (omega (arith, fits)) in
    let found : get_dentry_at_index disk sb d.root index ≡ ok (dentry_of (index % 32) b) =
      get_dentry_at_index_lem disk sb d.root index p d.direct
        (λ h. d.indirect (omega (arith, h, lt))) (λ h. d.dindirect (omega (arith, h, lt)))
        (omega (arith, lt, d.bounded)) at
      ∙ rw read refl in
    let next : (index + 1) % 2 ^ 32 ≡ index + 1 = omega (arith, lt, d.bounded) in
    rw some_room (
      rw d.super_read (
        rw d.root_read (
          rw before (
            rw found (
              rw room (
                ap
                  (λ (k : ℕ).
                    (ok (length name + 1, take bufsz name ++ replicate (bufsz - length name) 0), k))
                  next))))))
