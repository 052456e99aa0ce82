-- ===== src/Ktfs/Fetch/Answer.antt =====
-- What `ktfs_fetch` of src/modified/sys/ktfs.c answers, over the contents of a file.
use unix_like_operating_syst.Base.{
  ℕ, ◌+◌, ◌-◌, ◌*◌, ◌/◌, ◌^◌, min, ◌≡◌, ◌<◌, ◌≤◌, refl, sym, ap, ◌∙◌, true, false, some, List, [],
  arith, leb, ltb, if◌then◌else◌, le→ltb, lt→ltb, length, take, drop, length-take, length-drop,
  take-take, drop-take,
}
use mathlib.Core.Path.{ap₂}
use native.Mathlib.Nat.{mod-eq_of_lt}
use native.Mathlib.Decide.{dec_le, dec_lt}
use unix_like_operating_syst.Base.Results.{ok}
use unix_like_operating_syst.Ktfs.Disk.{Disk, superblock_of, Inode, get_inode}
use unix_like_operating_syst.Ktfs.Disk.Pointers.{pointers}
use unix_like_operating_syst.Ktfs.Fetch.{
  File, find_open, update_open, Cursor, Walk, done, fetch_blocks, cursor_at, Fetched, finish,
  fetch_inode, fetch_super, to_read_of, fetch_file, ktfs_fetch, back,
}
use unix_like_operating_syst.Ktfs.Fetch.Flat.{fetch_blocks-flat}
use unix_like_operating_syst.Ktfs.Fetch.Content.{bytes_of, Reads, skip_to}

-- The disk has the superblock and the file's inode, and these blocks behind its first pointers.
pub record Stored (disk : Disk) (f : File) (bs : List (List ℕ)) : Type 0 where
  pub super : List ℕ
  pub inode : Inode
  pub super_read : disk 0 ≡ ok super
  pub inode_read : get_inode disk (superblock_of super) f.inode_num ≡ ok inode
  pub blocks_read : Reads disk (superblock_of super) (pointers disk (superblock_of super) inode) bs
  pub enough : f.file_size ≤ length (bytes_of bs)

-- The bytes of a file.
abbrev pub content : File → List (List ℕ) → List ℕ
content f bs = take f.file_size (bytes_of bs)

wanted :
    (f : File) (bs : List (List ℕ)) (len : ℕ)
    → take len (drop f.pos (content f bs))
      ≡ take (min len (f.file_size - f.pos)) (drop f.pos (bytes_of bs))
wanted f bs len =
    ap (take len) (drop-take f.pos f.file_size (bytes_of bs))
    ∙ take-take len (f.file_size - f.pos) (drop f.pos (bytes_of bs))

to_read_of-min :
    (len : ℕ) (f : File)
    → f.pos < f.file_size
    → f.pos + len < 2 ^ 64
    → to_read_of len f ≡ min len (f.file_size - f.pos)
to_read_of-min len f h small = elim (dec_lt f.file_size (f.pos + len)) [
  | yes y ↦
      ap (λ (k : ℕ). if ltb f.file_size k then f.file_size - f.pos else len) (mod-eq_of_lt small)
      ∙ rw (lt→ltb f.file_size (f.pos + len) y) (omega arith)
  | no g ↦
      ap (λ (k : ℕ). if ltb f.file_size k then f.file_size - f.pos else len) (mod-eq_of_lt small)
      ∙ rw (le→ltb f.file_size (f.pos + len) (omega arith)) (omega arith)
]

finish_lem :
    (f : File) (w : Walk) (c : Cursor) (p : ℕ) (out : List ℕ)
    → w ≡ done c
    → c.pos ≡ p
    → c.out ≡ out
    → finish f w ≡ (ok out, record f { pos = p }, 0)
unfolding finish
finish_lem f w c p out e ep eo =
    ap (finish f) e ∙ ap₂ (λ (x : ℕ) (y : List ℕ). (ok y, record f { pos = x }, 0)) ep eo

-- A read inside the file.
inside :
    (disk : Disk) (n : ℕ) (f : File) (bs : List (List ℕ)) (s : Stored disk f bs)
    → 0 < n
    → n + f.pos ≤ f.file_size
    → fetch_super disk n f (disk 0)
      ≡ (ok (take n (drop f.pos (bytes_of bs))), record f { pos = f.pos + n }, 0)
unfolding fetch_super fetch_inode
inside disk n f bs s some_n fits =
    let sb = superblock_of s.super in
    let start = f.pos / 512 * 512 in
    let (c, w, dp, do_) =
      skip_to disk sb start n (f.pos / 512) (pointers disk sb s.inode) bs (cursor_at f.pos)
        s.blocks_read (omega arith) refl refl some_n (omega arith) (omega arith)
        (omega (arith, fits, s.enough)) in
    rw s.super_read (
      rw s.inode_read (
        finish_lem f (fetch_blocks disk sb start n s.inode (cursor_at f.pos)) c (f.pos + n)
          (take n (drop f.pos (bytes_of bs)))
          (fetch_blocks-flat disk sb start n s.inode (cursor_at f.pos) c some_n w) dp
          (do_ ∙ ap (λ (k : ℕ). take n (drop k (bytes_of bs))) {x = f.pos - 0} (omega arith))))

-- The bytes copied, and the position behind them.
abbrev pub read_to : File → List ℕ → Fetched
read_to f out = (ok out, record f { pos = f.pos + length out }, 0)

fetch_file_lem :
    (disk : Disk) (len : ℕ) (f : File) (bs : List (List ℕ))
    → Stored disk f bs
    → 0 < len
    → f.pos + len < 2 ^ 64
    → fetch_file disk len f ≡ read_to f (take len (drop f.pos (content f bs)))
unfolding fetch_file
fetch_file_lem disk len f bs s some_len small =
    let m = min len (f.file_size - f.pos) in
    let out = take m (drop f.pos (bytes_of bs)) in
    let size : length out ≡ m =
      length-take m (drop f.pos (bytes_of bs))
      ∙ omega (arith, length-drop f.pos (bytes_of bs), s.enough) in
    elim (dec_le f.file_size f.pos) [
      | yes end ↦
          let t : leb f.file_size f.pos ≡ true = ground (arith, end) in
          rw t (
            sym (
              ap (read_to f) (
                wanted f bs len
                ∙ ap (λ (k : ℕ). take k (drop f.pos (bytes_of bs)))
                    {x = min len (f.file_size - f.pos)} {y = 0} (omega (arith, end)))
              ∙ ap (λ (k : ℕ). (ok [], record f { pos = k }, 0)) {x = f.pos + 0} {y = f.pos}
                  (omega arith)))
      | no before ↦
          let t : leb f.file_size f.pos ≡ false = ground (arith, before) in
          rw t (
            ap (λ (k : ℕ). fetch_super disk k f (disk 0))
              (to_read_of-min len f (omega (arith, before)) small)
            ∙ inside disk m f bs s (omega (arith, before, some_len)) (omega (arith, before))
            ∙ ap (λ (k : ℕ). (ok out, record f { pos = f.pos + k }, 0)) (sym size)
            ∙ ap (read_to f) (sym (wanted f bs len)))
    ]

-- Where the disk holds a file's superblock, inode and the blocks of its content, `ktfs_fetch` of the
-- open file at any position, with a length that is not 0 and does not wrap, answers the content's
-- bytes from the position on, so many or all that are left; it moves the file's position behind
-- them, changes no other file, and leaves no block pinned.
pub ktfs_fetch-content :
    (disk : Disk) (files : List File) (uio len : ℕ) (f : File) (bs : List (List ℕ))
    → find_open uio files ≡ some f
    → Stored disk f bs
    → 0 < len
    → f.pos + len < 2 ^ 64
    → let out = take len (drop f.pos (content f bs)) in
      ktfs_fetch disk files uio len
      ≡ (ok out, update_open uio (record f { pos = f.pos + length out }) files, 0)
unfolding ktfs_fetch
ktfs_fetch-content disk files uio len f bs found s some_len small =
    rw found (ap (back uio files) (fetch_file_lem disk len f bs s some_len small))
