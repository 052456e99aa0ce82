-- ===== src/Ktfs/Disk/Dentry.antt =====
-- `get_dentry_at_index` of src/modified/sys/ktfs.c against the list of the directory's blocks.
use unix_like_operating_syst.Base.{
  ℕ, zero, suc, ◌+◌, ◌-◌, ◌*◌, ◌/◌, ◌%◌, ◌^◌, ◌≡◌, ◌≢◌, ◌<◌, ◌≤◌, refl, sym, ap, ◌∙◌, true, false,
  some, some_inj, List, [], ◌∷◌, ◌++◌, arith, leb, ltb, ◌==◌, if◌then◌else◌, ne→==, length,
  get_elem?, get_or, All, ◌&&◌, not,
}
use native.Mathlib.Decide.{dec_lt}
use unix_like_operating_syst.Base.Results.{Result, ok, err}
use unix_like_operating_syst.Ktfs.Disk.{
  Disk, Superblock, Inode, words, data_pos, and_then, sub32, entry_in, entry_behind,
  entry_dindirect, get_dentry_at_index,
}
use unix_like_operating_syst.Ktfs.Disk.Pointers.{
  in_block, behind, behind_block, doubly, singly, pointers, length-words,
}

get_elem?-append_left :
    (xs ys : List ℕ) (i : ℕ) → i < length xs → get_elem? (xs ++ ys) i ≡ some (get_or xs i 0)
get_elem?-append_left [] ys i h = absurd (omega arith)
get_elem?-append_left (x ∷ xs) ys zero h = refl
get_elem?-append_left (x ∷ xs) ys (suc i) h = get_elem?-append_left xs ys i (omega arith)

get_elem?-append_right :
    (xs ys : List ℕ) (i : ℕ) → get_elem? (xs ++ ys) (length xs + i) ≡ get_elem? ys i
get_elem?-append_right [] ys i = ap (get_elem? ys) (omega arith)
get_elem?-append_right (x ∷ xs) ys i =
    ap (get_elem? (x ∷ (xs ++ ys))) {y = suc (length xs + i)} (omega arith)
    ∙ get_elem?-append_right xs ys i

-- The pointer of a place in the block of another pointer.
abbrev Leads : Disk → Superblock → ℕ → ℕ → ℕ → Type 0
Leads disk sb q i p = (b : List ℕ) × (disk (data_pos sb q) ≡ ok b) × (get_or (words 128 b) i 0 ≡ p)

first_of_block :
    (r : Result (List ℕ)) (rest : List ℕ) (i p : ℕ)
    → i < 128
    → get_elem? (in_block r rest) i ≡ some p
    → (b : List ℕ) × (r ≡ ok b) × (get_or (words 128 b) i 0 ≡ p)
first_of_block (ok b) rest i p h e = (
  b,
  refl,
  some_inj
      (sym (get_elem?-append_left (words 128 b) rest i (omega (arith, h, length-words 128 b))) ∙ e),
)
first_of_block (err x) rest i p h e = absurd (cc e)

later_of_block :
    (r : Result (List ℕ)) (rest : List ℕ) (i p : ℕ)
    → get_elem? (in_block r rest) (128 + i) ≡ some p
    → get_elem? rest i ≡ some p
later_of_block (ok b) rest i p e =
    sym (get_elem?-append_right (words 128 b) rest i)
    ∙ ap (get_elem? (words 128 b ++ rest)) {x = length (words 128 b) + i} {y = 128 + i}
        (omega (arith, length-words 128 b))
    ∙ e
later_of_block (err x) rest i p e = absurd (cc e)

module _ (disk : Disk) (sb : Superblock) where
  in_behind :
      (ps rest : List ℕ) (i j p : ℕ)
      → i < length ps
      → j < 128
      → get_elem? (behind disk sb ps rest) (i * 128 + j) ≡ some p
      → Leads disk sb (get_or ps i 0) j p
  in_behind [] rest i j p h small e = absurd (omega arith)
  in_behind (q ∷ ps) rest zero j p h small e =
      first_of_block (disk (data_pos sb q)) (behind disk sb ps rest) j p small
        (ap (get_elem? (behind disk sb (q ∷ ps) rest)) {x = j} {y = 0 * 128 + j} (omega arith) ∙ e)
  in_behind (q ∷ ps) rest (suc i) j p h small e = in_behind ps rest i j p (omega arith) small (
      later_of_block (disk (data_pos sb q)) (behind disk sb ps rest) (i * 128 + j) p (
        ap (get_elem? (behind disk sb (q ∷ ps) rest)) {x = 128 + (i * 128 + j)}
          {y = suc i * 128 + j} (omega arith)
        ∙ e))

  after_behind :
      (ps rest : List ℕ) (i p : ℕ)
      → get_elem? (behind disk sb ps rest) (length ps * 128 + i) ≡ some p
      → get_elem? rest i ≡ some p
  after_behind [] rest i p e = ap (get_elem? rest) {x = i} {y = 0 * 128 + i} (omega arith) ∙ e
  after_behind (q ∷ ps) rest i p e = after_behind ps rest i p (
      later_of_block (disk (data_pos sb q)) (behind disk sb ps rest) (length ps * 128 + i) p (
        ap (get_elem? (behind disk sb (q ∷ ps) rest)) {x = 128 + (length ps * 128 + i)}
          {y = suc (length ps) * 128 + i} (omega arith)
        ∙ e))

  -- The entry of an index, where its block is known.
  entry_behind_lem :
      (q index p : ℕ)
      → Leads disk sb q (index / 32) p
      → entry_behind disk sb q index ≡ entry_in disk sb p (index % 32)
  unfolding entry_behind and_then
  entry_behind_lem q index p (b, r, e) = rw r (ap (λ (k : ℕ). entry_in disk sb k (index % 32)) e)

  in_doubly :
      (r : Result (List ℕ)) (rest : List ℕ) (index p : ℕ)
      → index < 524288
      → get_elem? (behind_block disk sb r rest) (index / 32) ≡ some p
      → and_then r
          (λ b. entry_behind disk sb (get_or (words 128 b) (index / 4096) 0) (index % 4096))
        ≡ entry_in disk sb p (index % 32)
  unfolding and_then
  in_doubly (err x) rest index p h e = absurd (cc e)
  in_doubly (ok b) rest index p h e =
      let i = index / 4096 in
      let j = index % 4096 / 32 in
      entry_behind_lem (get_or (words 128 b) i 0) (index % 4096) p (
        in_behind (words 128 b) rest i j p (omega (arith, length-words 128 b, h)) (omega arith) (
          ap (get_elem? (behind disk sb (words 128 b) rest)) {x = i * 128 + j} {y = index / 32}
            (omega arith)
          ∙ e))
      ∙ ap (entry_in disk sb p) {x = index % 4096 % 32} {y = index % 32} (omega arith)

  past_doubly :
      (r : Result (List ℕ)) (rest : List ℕ) (i p : ℕ)
      → get_elem? (behind_block disk sb r rest) (16384 + i) ≡ some p
      → get_elem? rest i ≡ some p
  past_doubly (err x) rest i p e = absurd (cc e)
  past_doubly (ok b) rest i p e = after_behind (words 128 b) rest i p (
      ap (get_elem? (behind disk sb (words 128 b) rest)) {x = length (words 128 b) * 128 + i}
        {y = 16384 + i} (omega (arith, length-words 128 b))
      ∙ e)

  entry_dindirect_lem :
      (ds : List ℕ) (index p : ℕ)
      → All (λ d. d ≢ 0) ds
      → get_elem? (doubly disk sb ds) (index / 32) ≡ some p
      → entry_dindirect disk sb ds index ≡ entry_in disk sb p (index % 32)
  unfolding entry_dindirect
  entry_dindirect_lem [] index p h e = absurd (cc e)
  entry_dindirect_lem (d ∷ ds) index p h e = elim (dec_lt index 524288) [
    | yes y ↦
        let t : leb 524288 index ≡ false = ground (arith, y) in
        rw t (rw (ne→== d 0 h.0) (in_doubly (disk (data_pos sb d)) (doubly disk sb ds) index p y e))
    | no g ↦
        let t : leb 524288 index ≡ true = ground (arith, g) in
        let i = (index - 524288) / 32 in
        rw t (
          entry_dindirect_lem ds (index - 524288) p h.1 (
            past_doubly (disk (data_pos sb d)) (doubly disk sb ds) i p (
              ap (get_elem? (doubly disk sb (d ∷ ds))) {x = 16384 + i} {y = index / 32}
                (omega (arith, g))
              ∙ e))
          ∙ ap (entry_in disk sb p) {x = (index - 524288) % 32} {y = index % 32} (omega (arith, g)))
  ]

-- For an inode with four direct blocks, where the pointer of the block `index / 32` is known:
-- `get_dentry_at_index` gives entry `index % 32` of that block, or the error of reading it. For an
-- index behind the direct blocks the indirect block is not 0, and the doubly indirect ones are not.
pub get_dentry_at_index_lem :
    (disk : Disk) (sb : Superblock) (root : Inode) (index p : ℕ)
    → length root.block ≡ 4
    → (128 ≤ index → root.indirect ≢ 0)
    → (4224 ≤ index → All (λ d. d ≢ 0) root.dindirect)
    → index < 2 ^ 32
    → get_elem? (pointers disk sb root) (index / 32) ≡ some p
    → get_dentry_at_index disk sb root index ≡ entry_in disk sb p (index % 32)
unfolding get_dentry_at_index pointers
get_dentry_at_index_lem disk sb root index p four ind dind small e = elim (dec_lt index 128) [
  | yes y ↦
      let t : ltb index 128 ≡ true = ground (arith, y) in
      rw t (
        ap (λ (k : ℕ). entry_in disk sb k (index % 32))
          (some_inj (
            sym (
              get_elem?-append_left root.block
                (singly disk sb root.indirect (doubly disk sb root.dindirect)) (index / 32)
                (omega (arith, four, y)))
            ∙ e)))
  | no g ↦
      let t : ltb index 128 ≡ false = ground (arith, g) in
      let later = index - 128 in
      let i = later / 32 in
      rw t (
        beyond root.indirect later (ind (omega (arith, g))) (omega (arith, small))
          (λ far. dind (omega (arith, far, g)))
          (sym (
              get_elem?-append_right root.block
                (singly disk sb root.indirect (doubly disk sb root.dindirect)) i)
            ∙ ap
                (get_elem?
                  (root.block ++ singly disk sb root.indirect (doubly disk sb root.dindirect)))
                {x = length root.block + i} {y = index / 32} (omega (arith, four, g))
            ∙ e)
        ∙ ap (entry_in disk sb p) {x = later % 32} {y = index % 32} (omega (arith, g)))
]
  where
    beyond :
        (i later : ℕ)
        → i ≢ 0
        → later < 2 ^ 32
        → (4096 ≤ later → All (λ d. d ≢ 0) root.dindirect)
        → get_elem? (singly disk sb i (doubly disk sb root.dindirect)) (later / 32) ≡ some p
        → (if ltb later 4096 && not (i == 0)
            then entry_behind disk sb i later
            else entry_dindirect disk sb root.dindirect (sub32 later 4096))
          ≡ entry_in disk sb p (later % 32)
    beyond zero later ne small nz e = absurd (ne refl)
    beyond (suc i) later ne small nz e = elim (dec_lt later 4096) [
      | yes y ↦
          let t : ltb later 4096 ≡ true = ground (arith, y) in
          rw t (
            rw (ne→== (suc i) 0 ne) (
              entry_behind_lem disk sb (suc i) later p (
                first_of_block (disk (data_pos sb (suc i))) (doubly disk sb root.dindirect)
                  (later / 32) p (omega (arith, y)) e)))
      | no g ↦
          let t : ltb later 4096 ≡ false = ground (arith, g) in
          let w : sub32 later 4096 ≡ later - 4096 =
            ap (λ (k : ℕ). k % 2 ^ 32) {x = later + 2 ^ 32 - 4096} {y = later - 4096 + 2 ^ 32}
              (omega (arith, g))
            ∙ omega (arith, g, small) in
          rw t (
            ap (entry_dindirect disk sb root.dindirect) w
            ∙ entry_dindirect_lem disk sb root.dindirect (later - 4096) p (nz (omega (arith, g))) (
                later_of_block (disk (data_pos sb (suc i))) (doubly disk sb root.dindirect)
                  ((later - 4096) / 32) p
                  (ap (get_elem? (singly disk sb (suc i) (doubly disk sb root.dindirect)))
                      {x = 128 + (later - 4096) / 32} {y = later / 32} (omega (arith, g))
                    ∙ e))
            ∙ ap (entry_in disk sb p) {x = (later - 4096) % 32} {y = later % 32} (omega (arith, g)))
    ]
