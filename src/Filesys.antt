-- ===== src/Filesys.antt =====
-- src/modified/sys/filesys.c: mount points, paths and the listing of the mount points.
--
-- A string is the list of its bytes, without the final zero. A file system is what its structure
-- holds: functions that may be null, over a state `W` that the file systems share.
pub mod Path
pub mod Mount
mod Tests
use unix_like_operating_syst.Base.{
  ℕ, ◌+◌, ◌-◌, Bool, true, false, ◌&&◌, Option, none, some, List, [], ◌∷◌, ◌++◌, ltb, ◌==◌,
  if◌then◌else◌, length, take, replicate,
}
use unix_like_operating_syst.Base.Results.{Result, ok, err, einval, enotsup, enoent, eexist}

abbrev pub Name : Type 0
Name = List ℕ

-- Whether `strcmp` answers 0.
pub same : Name → Name → Bool
same [] [] = true
same [] (_ ∷ _) = false
same (_ ∷ _) [] = false
same (x ∷ xs) (y ∷ ys) = x == y && same xs ys

abbrev pub slash : ℕ
slash = 47

abbrev pub extend : ℕ → Option (Name × Name) → Option (Name × Name)
extend x none = none
extend x (some (pre, post)) = some (x ∷ pre, post)

-- The walk of `parse_path` to the first slash: what stands before it and behind it.
pub at_slash : Name → Option (Name × Name)
at_slash [] = none
at_slash (x ∷ xs) = if x == slash then some ([], xs) else extend x (at_slash xs)

abbrev pub is_root : Name → Bool
is_root (x ∷ []) = x == slash
is_root _ = false

pub named : Option (Name × Name) → Result (Name × Option Name)
named none = err einval
named (some ([], post)) = err einval
named (some (x ∷ pre, post)) = ok (x ∷ pre, some post)

-- `parse_path` behind its null checks: the mount point's name and the file's, null for the root.
pub parse_path : Name → Result (Name × Option Name)
parse_path path = if is_root path then ok ([], none) else named (at_slash path)

module _ (W : Type 0) where
  -- `struct filesystem`; an opened file is a number that stands for its `uio`.
  pub record Filesystem : Type 0 where
    pub open_op : Option (Option Name → W → Result ℕ × W)
    pub create_op : Option (Name → W → Result (Unit {0}) × W)
    pub delete_op : Option (Name → W → Result (Unit {0}) × W)
    pub flush_op : Option (W → W)

  pub record Mountpoint : Type 0 where
    pub name : Name
    pub fs : Filesystem

  -- What an open file is: of a file system, or the listing, which starts at the first mount point.
  pub data Opened : Type 0 where
    file : ℕ → Opened
    listing : List Mountpoint → Opened

module _ {W : Type 0} where
  -- `getfs`
  pub getfs : Name → List (Mountpoint W) → Option (Filesystem W)
  getfs n [] = none
  getfs n (m ∷ ms) = if same m.name n then some m.fs else getfs n ms

  abbrev pub mounted_before :
      Mountpoint W
      → Result (Unit {0}) × List (Mountpoint W)
      → Result (Unit {0}) × List (Mountpoint W)
  mounted_before m (r, ms) = (r, m ∷ ms)

  -- `attach_filesystem`, with memory for the mount point
  pub attach_filesystem :
      Name → Filesystem W → List (Mountpoint W) → Result (Unit {0}) × List (Mountpoint W)
  attach_filesystem n fs [] = (ok tt, record { name = n; fs = fs } ∷ [])
  attach_filesystem n fs (m ∷ ms) =
      if same m.name n then (err eexist, m ∷ ms) else mounted_before m (attach_filesystem n fs ms)

  pub fsopen : Filesystem W → Option Name → W → Result ℕ × W
  fsopen fs n w = elim fs.open_op [ none ↦ (err enotsup, w) | some op ↦ op n w ]

  pub fscreate : Filesystem W → Name → W → Result (Unit {0}) × W
  fscreate fs n w = elim fs.create_op [ none ↦ (err enotsup, w) | some op ↦ op n w ]

  pub fsdelete : Filesystem W → Name → W → Result (Unit {0}) × W
  fsdelete fs n w = elim fs.delete_op [ none ↦ (err enotsup, w) | some op ↦ op n w ]

  pub fsflush : Filesystem W → W → W
  fsflush fs w = elim fs.flush_op [ none ↦ w | some op ↦ op w ]

  abbrev pub as_file : Result ℕ × W → Result (Opened W) × W
  as_file (ok u, w) = (ok (file u), w)
  as_file (err e, w) = (err e, w)

  abbrev pub open_in : Option (Filesystem W) → Option Name → W → Result (Opened W) × W
  open_in none n w = (err enoent, w)
  open_in (some fs) n w = as_file (fsopen fs n w)

  -- `open_file`, called as its assertion demands: a file's name only with a mount point's
  pub open_file : Option Name → Option Name → List (Mountpoint W) → W → Result (Opened W) × W
  open_file none n ms w = (ok (listing ms), w)
  open_file (some []) n ms w = (ok (listing ms), w)
  open_file (some (x ∷ xs)) n ms w = open_in (getfs (x ∷ xs) ms) n w

  -- `create_file`
  pub create_file : Option Name → Option Name → List (Mountpoint W) → W → Result (Unit {0}) × W
  create_file (some mp) (some n) ms w = elim (getfs mp ms) [
    | none ↦ (err enoent, w)
    | some fs ↦ fscreate fs n w
  ]
  create_file _ _ ms w = (err einval, w)

  -- `delete_file`
  pub delete_file : Option Name → Option Name → List (Mountpoint W) → W → Result (Unit {0}) × W
  delete_file (some mp) (some n) ms w = elim (getfs mp ms) [
    | none ↦ (err enoent, w)
    | some fs ↦ fsdelete fs n w
  ]
  delete_file _ _ ms w = (err einval, w)

  -- `fsmgr_flushall`
  pub fsmgr_flushall : List (Mountpoint W) → W → W
  fsmgr_flushall [] w = w
  fsmgr_flushall (m ∷ ms) w = fsmgr_flushall ms (fsflush m.fs w)

  -- `fs_listing_read`: the length answered, the bytes that `strncpy` puts in the buffer, and the
  -- listing's place after it.
  pub fs_listing_read : ℕ → List (Mountpoint W) → ℕ × List ℕ × List (Mountpoint W)
  fs_listing_read bufsz [] = (0, [], [])
  fs_listing_read bufsz (m ∷ ms) =
      let len : ℕ = length m.name in
      (if ltb len bufsz then len else bufsz, take bufsz m.name ++ replicate (bufsz - len) 0, ms)
