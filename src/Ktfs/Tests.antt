-- ===== src/Ktfs/Tests.antt =====
-- The bitmap searches of src/modified/sys/ktfs.c on a full block and one with a free bit.
use unix_like_operating_syst.Base.Results.{ok}
use unix_like_operating_syst.Ktfs.Status.{set_status}
use unix_like_operating_syst.Ktfs.Status.Marks.{Bytes, find_free_data_block-marked}
use unix_like_operating_syst.Base.{
  zero, suc, ◌<◌, ◌≢◌, All, refl, arith, true, false, get_elem?, ℕ, ◌≡◌, some, List, [], ◌∷◌, map,
  length-replicate, replicate,
}
use unix_like_operating_syst.Ktfs.{
  find_free_data_block, find_free_inode, find_data, scan_bytes, scan_bits,
}
use unix_like_operating_syst.Ktfs.Bits.{all_bits}
use unix_like_operating_syst.Ktfs.Free.{Sized, Finds, passed, find_free_inode-Finds}

abbrev two_bitmaps : List (List ℕ)
two_bitmaps = replicate 512 255 ∷ replicate 512 251 ∷ []

two_bitmaps-Sized : Sized two_bitmaps
two_bitmaps-Sized = (length-replicate {A = ℕ} 512 255, (length-replicate {A = ℕ} 512 251, tt))

find_free_inode-Finds_example :
    let (r, pinned) = find_free_inode (map some two_bitmaps) in
    Finds (all_bits two_bitmaps) r × (pinned ≡ passed 0 two_bitmaps)
find_free_inode-Finds_example = find_free_inode-Finds two_bitmaps two_bitmaps-Sized

repeat-Bytes : (n v : ℕ) → v < 256 → Bytes (replicate n v)
repeat-Bytes zero v h = tt
repeat-Bytes (suc n) v h = (h, repeat-Bytes n v h)

two_bitmaps-Bytes : All Bytes two_bitmaps
two_bitmaps-Bytes = (repeat-Bytes 512 255 (omega arith), (repeat-Bytes 512 251 (omega arith), tt))

find_free_data_block-marked_example :
    (get_elem? (all_bits two_bitmaps) 4098 ≡ some false)
    × ((find_free_data_block (set_status (map some two_bitmaps) 4098 true)).0 ≢ ok 4098)
unfolding find_free_data_block find_data scan_bytes scan_bits
find_free_data_block-marked_example =
    find_free_data_block-marked two_bitmaps 4098 two_bitmaps-Sized two_bitmaps-Bytes (omega arith)
      refl
