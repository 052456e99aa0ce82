-- ===== src/Ktfs/Open.antt =====
-- `ktfs_open`, `ktfs_close` and `ktfs_listing_read` of src/modified/sys/ktfs.c: the search of the
-- directory for a name, and the list of open files.
--
-- There is memory for the file and the listing. The locks are left out, as in Ktfs.Fetch; a search
-- that fails gives back each block that it read.
pub mod Flat
pub mod Finds
pub mod Listing
mod Tests
use unix_like_operating_syst.Base.{
  ℕ, zero, suc, ◌+◌, ◌-◌, ◌*◌, ◌/◌, Bool, true, false, Option, none, some, List, [], ◌∷◌, ◌++◌, ltb,
  leb, ◌==◌, if◌then◌else◌, length, take, replicate,
}
use unix_like_operating_syst.Base.Results.{Errno, Result, ok, err, enoent, enotsup}
use unix_like_operating_syst.Filesys.{Name, same}
use unix_like_operating_syst.Ktfs.Disk.{
  Disk, Superblock, superblock_of, Inode, get_inode, DirEntry, dentry_of, data_pos, words,
  get_dentry_at_index,
}
use unix_like_operating_syst.Ktfs.Fetch.{File}

-- The name of an entry up to its zero.
pub c_name : List ℕ → Name
c_name [] = []
c_name (c ∷ cs) = let more = c ∷ c_name cs in if c == 0 then [] else more

-- How a loop of the search ends: after so many entries, with the entry found, or with an error.
pub data Search : Type 0 where
  more : ℕ → Search
  found : DirEntry → Search
  failed : Errno → Search

pub and_search : Search → (ℕ → Search) → Search
and_search (more i) f = f i
and_search (found e) f = found e
and_search (failed e) f = failed e

module _ (disk : Disk) (sb : Superblock) (name : Name) (num : ℕ) where
  -- The loop over the entries of a block, so many from one on; `i` counts the entries seen.
  pub scan_entries : ℕ → ℕ → ℕ → List ℕ → Search
  scan_entries zero k i b = more i
  scan_entries (suc n) k i b =
      let later = scan_entries n (k + 1) (i + 1) b in
      if ltb i num
      then if same (c_name (dentry_of k b).name) name then found (dentry_of k b) else later
      else more i

  pub search_block : Result (List ℕ) → ℕ → Search
  search_block (ok b) i = scan_entries 32 0 i b
  search_block (err e) i = failed e

  -- A loop over pointers to blocks of entries, the direct ones or those of an indirect block.
  pub search_pointers : List ℕ → ℕ → Search
  search_pointers [] i = more i
  search_pointers (p ∷ ps) i =
      if ltb i num
      then and_search (search_block (disk (data_pos sb p)) i) (search_pointers ps)
      else more i

  pub search_behind : Result (List ℕ) → ℕ → Search
  search_behind (ok b) i = search_pointers (words 128 b) i
  search_behind (err e) i = failed e

  -- The indirect block.
  pub search_indirect : ℕ → ℕ → Search
  search_indirect zero i = more i
  search_indirect (suc d) i = search_behind (disk (data_pos sb (suc d))) i

  -- The loop over the pointers of a doubly indirect block.
  pub search_inner : List ℕ → ℕ → Search
  search_inner [] i = more i
  search_inner (p ∷ ps) i =
      if ltb i num
      then and_search (search_behind (disk (data_pos sb p)) i) (search_inner ps)
      else more i

  pub search_double : Result (List ℕ) → ℕ → Search
  search_double (ok b) i = search_inner (words 128 b) i
  search_double (err e) i = failed e

  -- The loop over the doubly indirect blocks.
  pub search_outer : List ℕ → ℕ → Search
  search_outer [] i = more i
  search_outer (d ∷ ds) i =
      if ltb i num
      then and_search (search_double (disk (data_pos sb d)) i) (search_outer ds)
      else more i

  -- Between the parts, the search ends where all entries have been seen.
  abbrev pub unless_all : (ℕ → Search) → ℕ → Search
  unless_all f i = if i == num then more i else f i

  pub search_directory : Inode → Search
  search_directory root = and_search (search_pointers root.block 0) (
      unless_all (λ i.
        and_search (search_indirect root.indirect i) (unless_all (search_outer root.dindirect))))

-- What an open gives: a listing of the directory, or a file of the list.
pub data Opened : Type 0 where
  listing : Opened
  file : File → Opened

abbrev pub opened_inode : ℕ → ℕ → List File → Result Inode → Result Opened × List File
opened_inode uio n files (err e) = (err e, files)
opened_inode uio n files (ok inode) =
    let f : File = record { uio = uio; file_size = inode.size; inode_num = n; pos = 0 } in
    (ok (file f), f ∷ files)

-- The superblock is read again for the file's inode.
abbrev pub opened_super :
    Disk → ℕ → DirEntry → List File → Result (List ℕ) → Result Opened × List File
opened_super disk uio e files (err x) = (err x, files)
opened_super disk uio e files (ok b) =
    opened_inode uio e.inode files (get_inode disk (superblock_of b) e.inode)

abbrev pub opened : Disk → ℕ → List File → Search → Result Opened × List File
opened disk uio files (more i) = (err enoent, files)
opened disk uio files (failed e) = (err e, files)
opened disk uio files (found e) = opened_super disk uio e files (disk 0)

abbrev pub open_root :
    Disk → Superblock → Name → ℕ → List File → Result Inode → Result Opened × List File
open_root disk sb name uio files (err e) = (err e, files)
open_root disk sb name uio files (ok root) =
    opened disk uio files (search_directory disk sb name (root.size / 16) root)

abbrev pub open_super : Disk → Name → ℕ → List File → Result (List ℕ) → Result Opened × List File
open_super disk name uio files (err e) = (err e, files)
open_super disk name uio files (ok b) =
    let sb = superblock_of b in
    open_root disk sb name uio files (get_inode disk sb sb.root_directory_inode)

-- `ktfs_open` of a name that may be null, where the new file's endpoint is `uio`
pub ktfs_open : Disk → Option Name → ℕ → List File → Result Opened × List File
ktfs_open disk none uio files = (ok listing, files)
ktfs_open disk (some []) uio files = (ok listing, files)
ktfs_open disk (some (c ∷ cs)) uio files = open_super disk (c ∷ cs) uio files (disk 0)

-- `ktfs_close`: the file goes from the list, and whether the cache is flushed.
pub ktfs_close : ℕ → List File → List File × Bool
ktfs_close uio [] = ([], false)
ktfs_close uio (f ∷ fs) =
    let (rest, flushed) = ktfs_close uio fs in
    if f.uio == uio then (fs, true) else (f ∷ rest, flushed)
