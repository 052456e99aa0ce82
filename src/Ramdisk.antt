-- ===== src/Ramdisk.antt =====
-- The RAM disk of src/modified/sys/dev/ramdisk.c, behind the calls of storage devices of
-- src/provided/sys/device.c.
--
-- The memory behind the disk is a list of bytes, or none for a null pointer. The pointers that the
-- calls test for null are taken not to be null. `store` is null in the disk's interface.
pub mod Reads
mod Tests
use unix_like_operating_syst.Base.{
  ℕ, ◌+◌, ◌-◌, ◌%◌, Bool, true, false, ◌&&◌, ◌||◌, Option, none, some, List, [], leb, ltb, ◌==◌,
  if◌then◌else◌, take, drop, length,
}
use unix_like_operating_syst.Base.Results.{Result, ok, err, einval, enotsup}

-- `struct ramdisk`
pub record Ramdisk : Type 0 where
  pub buf : Option (List ℕ)
  pub size : ℕ
  pub opened : Bool

-- `ramdisk_attach`, on the linked blob
pub attach : List ℕ → Ramdisk
attach blob = record { buf = some blob; size = length blob; opened = false }

-- `ramdisk_open`
pub open_disk : Ramdisk → Result (Unit {0}) × Ramdisk
open_disk d = if d.opened then (err enotsup, d) else (ok tt, record d { opened = true })

-- `ramdisk_close`
pub close_disk : Ramdisk → Ramdisk
close_disk d = if d.opened then record d { opened = false } else d

-- `memcpy` of bytes out of the disk's memory
abbrev pub copy : List ℕ → ℕ → ℕ → List ℕ
copy buf pos n = take n (drop pos buf)

abbrev pub fetch_from : Option (List ℕ) → ℕ → ℕ → ℕ → Result (List ℕ)
fetch_from none size pos bytecnt = err enotsup
fetch_from (some buf) size pos bytecnt =
    if leb size pos
    then ok []
    else if ltb (size - pos) bytecnt
    then ok (copy buf pos (size - pos))
    else ok (copy buf pos bytecnt)

-- `ramdisk_fetch`: the bytes copied; their number is what it returns.
pub fetch : Ramdisk → ℕ → ℕ → Result (List ℕ)
fetch d pos bytecnt =
    if d.opened
    then if bytecnt == 0 then ok [] else fetch_from d.buf d.size pos bytecnt
    else err enotsup

-- `ramdisk_cntl`: whether the command is `FCNTL_GETEND`, and the value passed back.
pub cntl : Ramdisk → Bool → Result ℕ
cntl d is_getend = if is_getend then ok d.size else err enotsup

-- The block size of the disk's interface.
abbrev pub blksz : ℕ
blksz = 1

-- `storage_fetch`
pub storage_fetch : Ramdisk → ℕ → ℕ → Result (List ℕ)
storage_fetch d pos bufsz =
    if (bufsz == 0 || leb blksz bufsz) && pos % blksz == 0 then fetch d pos bufsz else err einval

-- `storage_store`, whose function the interface does not have
pub storage_store : Ramdisk → ℕ → List ℕ → Result (Unit {0}) × Ramdisk
storage_store d pos buf = (err enotsup, d)
