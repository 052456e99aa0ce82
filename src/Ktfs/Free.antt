-- ===== src/Ktfs/Free.antt =====
-- The searches for a free inode and a free data block of src/modified/sys/ktfs.c.
use unix_like_operating_syst.Base.{
  ℕ, ◌+◌, ◌*◌, ◌≡◌, refl, sym, ap, ◌∙◌, Bool, true, false, Option, none, some, List, [], ◌∷◌, arith,
  length, map, All,
}
use mathlib.Core.Path.{subst}
use unix_like_operating_syst.Base.Results.{Result, ok, err, enotsup}
use unix_like_operating_syst.Ktfs.{
  bits_per_block, scan_bytes, data_in_block, find_data, find_free_data_block, inode_in_block,
  find_inode, find_free_inode,
}
use unix_like_operating_syst.Ktfs.Bits.{
  bits_of, all_bits, first_free, or_else, first_free-append, scan_bytes_lem, length-bits_of,
  FirstFree, first_free-FirstFree,
}

abbrev answer : Option ℕ → Result ℕ
answer none = err enotsup
answer (some n) = ok n

abbrev add : ℕ → Option ℕ → Option ℕ
add n none = none
add n (some m) = some (n + m)

first_free-add : (n k : ℕ) (bs : List Bool) → first_free (n + k) bs ≡ add n (first_free k bs)
first_free-add n k [] = refl
first_free-add n k (true ∷ bs) =
    ap (λ (j : ℕ). first_free j bs) (omega arith) ∙ first_free-add n (k + 1) bs
first_free-add n k (false ∷ bs) = refl

-- The blocks have the size of a bitmap block.
abbrev pub Sized : List (List ℕ) → Type 0
Sized = All (λ b. length b ≡ 512)

-- The first free bit of the bitmap, from a block on, cut behind its first block.
bitmap_cut :
    (i : ℕ) (block : List ℕ) (blocks : List (List ℕ))
    → length block ≡ 512
    → first_free (i * bits_per_block) (all_bits (block ∷ blocks))
      ≡ or_else
          (add (i * bits_per_block) (scan_bytes 0 block))
          (first_free ((i + 1) * bits_per_block) (all_bits blocks))
bitmap_cut i block blocks e =
    let n : ℕ = i * bits_per_block in
    let here : first_free n (bits_of block) ≡ add n (scan_bytes 0 block) =
      ap (λ (j : ℕ). first_free j (bits_of block)) (omega arith)
      ∙ first_free-add n (0 * 8) (bits_of block)
      ∙ ap (add n) (sym (scan_bytes_lem 0 block)) in
    first_free-append n (bits_of block) (all_bits blocks)
    ∙ ap (λ o. or_else o (first_free (n + length (bits_of block)) (all_bits blocks))) here
    ∙ ap (λ (j : ℕ). or_else (add n (scan_bytes 0 block)) (first_free j (all_bits blocks)))
        (omega (arith, length-bits_of block, e))

data_step :
    (i : ℕ) (o rest : Option ℕ) (r : Result ℕ × List ℕ)
    → r ≡ (answer rest, [])
    → data_in_block i o r ≡ (answer (or_else (add (i * bits_per_block) o) rest), [])
data_step i none rest r e = e
data_step i (some k) rest r e = refl

find_data_lem :
    (i : ℕ) (blocks : List (List ℕ))
    → Sized blocks
    → find_data i (map some blocks)
      ≡ (answer (first_free (i * bits_per_block) (all_bits blocks)), [])
unfolding find_data
find_data_lem i [] h = refl
find_data_lem i (block ∷ blocks) h =
    data_step i (scan_bytes 0 block) (first_free ((i + 1) * bits_per_block) (all_bits blocks))
      (find_data (i + 1) (map some blocks)) (find_data_lem (i + 1) blocks h.1)
    ∙ ap (λ o. (answer o, [])) (sym (bitmap_cut i block blocks h.0))

abbrev pub stop_at : ℕ → Option ℕ → List ℕ → List ℕ
stop_at i none pins = i ∷ pins
stop_at i (some k) pins = []

-- The blocks that a search passes, as all their bits are in use.
abbrev pub passed : ℕ → List (List ℕ) → List ℕ
passed i [] = []
passed i (block ∷ blocks) = stop_at i (first_free 0 (bits_of block)) (passed (i + 1) blocks)

inode_step :
    (i : ℕ) (o rest : Option ℕ) (pins : List ℕ) (r : Result ℕ × List ℕ)
    → r ≡ (answer rest, pins)
    → inode_in_block i o r ≡ (answer (or_else (add (i * bits_per_block) o) rest), stop_at i o pins)
inode_step i none rest pins r e = ap (λ (x : Result ℕ × List ℕ). (x.0, i ∷ x.1)) e
inode_step i (some k) rest pins r e = refl

find_inode_lem :
    (i : ℕ) (blocks : List (List ℕ))
    → Sized blocks
    → find_inode i (map some blocks)
      ≡ (answer (first_free (i * bits_per_block) (all_bits blocks)), passed i blocks)
unfolding find_inode
find_inode_lem i [] h = refl
find_inode_lem i (block ∷ blocks) h =
    inode_step i (scan_bytes 0 block) (first_free ((i + 1) * bits_per_block) (all_bits blocks))
      (passed (i + 1) blocks) (find_inode (i + 1) (map some blocks))
      (find_inode_lem (i + 1) blocks h.1)
    ∙ ap (λ o. (answer o, stop_at i (scan_bytes 0 block) (passed (i + 1) blocks)))
        (sym (bitmap_cut i block blocks h.0))
    ∙ ap
        (λ o. (
          answer (first_free (i * bits_per_block) (all_bits (block ∷ blocks))),
          stop_at i o (passed (i + 1) blocks),
        ))
        (scan_bytes_lem 0 block ∙ ap (λ (j : ℕ). first_free j (bits_of block)) (omega arith))

-- What a search answers: the first bit that is not in use, or an error and all bits in use.
abbrev pub Finds : List Bool → Result ℕ → Type 0
Finds bs (ok n) = FirstFree 0 bs (some n)
Finds bs (err e) = (e ≡ enotsup) × FirstFree 0 bs none

answer-Finds : (bs : List Bool) (o : Option ℕ) → FirstFree 0 bs o → Finds bs (answer o)
answer-Finds bs none h = (refl, h)
answer-Finds bs (some n) h = h

found :
    (blocks : List (List ℕ)) (r : Result ℕ)
    → r ≡ answer (first_free (0 * bits_per_block) (all_bits blocks))
    → Finds (all_bits blocks) r
found blocks r e = subst (Finds (all_bits blocks)) (sym e) (
    answer-Finds (all_bits blocks) (first_free 0 (all_bits blocks))
      (first_free-FirstFree 0 (all_bits blocks)))

-- Where all bitmap blocks can be read, `find_free_data_block` answers the number of the first bit of
-- the bitmap that is not in use, or an error where all are in use, and leaves no block pinned.
pub find_free_data_block-Finds :
    (blocks : List (List ℕ))
    → Sized blocks
    → let (r, pinned) = find_free_data_block (map some blocks) in
      Finds (all_bits blocks) r × (pinned ≡ [])
unfolding find_free_data_block
find_free_data_block-Finds blocks h =
    let e = find_data_lem 0 blocks h in
    (
      found blocks (find_data 0 (map some blocks)).0 (ap (λ (x : Result ℕ × List ℕ). x.0) e),
      ap (λ (x : Result ℕ × List ℕ). x.1) e,
    )

-- Where all bitmap blocks can be read, `find_free_inode` answers the number of the first bit of the
-- bitmap that is not in use, or an error where all are in use; but it leaves each bitmap block
-- pinned whose bits it found all in use.
pub find_free_inode-Finds :
    (blocks : List (List ℕ))
    → Sized blocks
    → let (r, pinned) = find_free_inode (map some blocks) in
      Finds (all_bits blocks) r × (pinned ≡ passed 0 blocks)
unfolding find_free_inode
find_free_inode-Finds blocks h =
    let e = find_inode_lem 0 blocks h in
    (
      found blocks (find_inode 0 (map some blocks)).0 (ap (λ (x : Result ℕ × List ℕ). x.0) e),
      ap (λ (x : Result ℕ × List ℕ). x.1) e,
    )
