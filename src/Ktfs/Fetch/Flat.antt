-- ===== src/Ktfs/Fetch/Flat.antt =====
-- The nested loops of `ktfs_fetch` of src/modified/sys/ktfs.c against one loop over the list of all
-- pointers.
use unix_like_operating_syst.Base.{
  ℕ, zero, suc, ◌≡◌, ◌<◌, ◌≤◌, refl, sym, ap, ◌∙◌, inl, inr, false, List, [], ◌∷◌, ◌++◌, arith, leb,
  ltb, ◌==◌, Bool-cases,
}
use mathlib.Core.Path.{fun_ext}
use unix_like_operating_syst.Base.Results.{Result, ok, err}
use unix_like_operating_syst.Ktfs.Disk.{Disk, Superblock, Inode, words, data_pos}
use unix_like_operating_syst.Ktfs.Disk.Pointers.{
  in_block, behind, behind_block, doubly, singly, pointers,
}
use unix_like_operating_syst.Ktfs.Fetch.{
  Cursor, Walk, more, done, failed, and_walk, pinning, advance, returned, copy_block, walk_block,
  fetch_direct, fetch_pointers, fetch_behind, fetch_indirect, fetch_inner, fetch_double,
  fetch_outer, fetch_blocks,
}

and_walk_assoc :
    (w : Walk) (f g : Cursor → Walk)
    → and_walk (and_walk w f) g ≡ and_walk w (λ c. and_walk (f c) g)
unfolding and_walk
and_walk_assoc (more c) f g = refl
and_walk_assoc (done c) f g = refl
and_walk_assoc (failed e n) f g = refl

-- A loop that goes on has not copied all yet.
abbrev Below : ℕ → Walk → Type 0
Below n (more c) = c.copied < n
Below n (done c) = Unit
Below n (failed e k) = Unit

returned-Below : (n : ℕ) (c : Cursor) → c.copied ≤ n → Below n (returned n c)
returned-Below n c h = elim (Bool-cases (c.copied == n)) [
  | inl y ↦ rw y tt
  | inr f ↦ rw f (ground (arith, f, h))
]

copy_block-Below :
    (n : ℕ) (c : Cursor) (r : Result (List ℕ)) → c.copied < n → Below n (copy_block n c r)
unfolding copy_block advance
copy_block-Below n c (ok b) h = returned-Below n (advance n c b) (omega arith)
copy_block-Below n c (err e) h = tt

and_walk-Below :
    (n : ℕ) (w : Walk) (f : Cursor → Walk)
    → Below n w
    → ((c : Cursor) → c.copied < n → Below n (f c))
    → Below n (and_walk w f)
unfolding and_walk
and_walk-Below n (more c) f b h = h c b
and_walk-Below n (done c) f b h = tt
and_walk-Below n (failed e k) f b h = tt

pinned :
    (w : Walk) (k : Cursor → Walk) (end : Cursor)
    → and_walk w k ≡ done end
    → and_walk (pinning w) k ≡ done end
unfolding and_walk pinning
pinned (more c) k end e = e
pinned (done c) k end e = e
pinned (failed x n) k end e = cc e

module _ (disk : Disk) (sb : Superblock) (start n : ℕ) where
  walk_block-Below : (p : ℕ) (c : Cursor) → c.copied < n → Below n (walk_block disk sb start n p c)
  unfolding walk_block
  walk_block-Below p c h = elim (Bool-cases (ltb c.walked start)) [
    | inl y ↦ rw y h
    | inr f ↦ rw f (copy_block-Below n c (disk (data_pos sb p)) h)
  ]

  fetch_pointers-Below :
      (ps : List ℕ) (c : Cursor) → c.copied < n → Below n (fetch_pointers disk sb start n ps c)
  unfolding fetch_pointers
  fetch_pointers-Below [] c h = h
  fetch_pointers-Below (p ∷ ps) c h = elim (Bool-cases (leb n c.copied)) [
    | inl y ↦ rw y tt
    | inr f ↦ rw f (
        and_walk-Below n (walk_block disk sb start n p c) (fetch_pointers disk sb start n ps)
          (walk_block-Below p c h) (fetch_pointers-Below ps))
  ]

  pub fetch_pointers-append :
      (ps qs : List ℕ) (c : Cursor)
      → fetch_pointers disk sb start n (ps ++ qs) c
        ≡ and_walk (fetch_pointers disk sb start n ps c) (fetch_pointers disk sb start n qs)
  unfolding fetch_pointers and_walk
  fetch_pointers-append [] qs c = refl
  fetch_pointers-append (p ∷ ps) qs c = elim (Bool-cases (leb n c.copied)) [
    | inl y ↦ rw y refl
    | inr f ↦ rw f (
        ap (and_walk (walk_block disk sb start n p c)) (fun_ext (fetch_pointers-append ps qs))
        ∙ sym (
            and_walk_assoc (walk_block disk sb start n p c) (fetch_pointers disk sb start n ps)
              (fetch_pointers disk sb start n qs)))
  ]

  same_after :
      (w : Walk) (f g : Cursor → Walk)
      → Below n w
      → ((c : Cursor) → c.copied < n → f c ≡ g c)
      → and_walk w f ≡ and_walk w g
  unfolding and_walk
  same_after (more d) f g b h = h d b
  same_after (done d) f g b h = refl
  same_after (failed e k) f g b h = refl

  -- The direct loop is left only by its end or a return, as it never starts with all copied.
  direct_as_pointers :
      (ps : List ℕ) (c : Cursor)
      → c.copied < n
      → fetch_direct disk sb start n ps c ≡ fetch_pointers disk sb start n ps c
  unfolding fetch_direct fetch_pointers
  direct_as_pointers [] c h = refl
  direct_as_pointers (p ∷ ps) c h =
      let f : leb n c.copied ≡ false = ground arith in
      rw f (
        same_after (walk_block disk sb start n p c) (fetch_direct disk sb start n ps)
          (fetch_pointers disk sb start n ps) (walk_block-Below p c h) (direct_as_pointers ps))

  -- What follows a loop ends as the one loop over the pointers that follow.
  abbrev Follows : List ℕ → (Cursor → Walk) → Cursor → Type 0
  Follows rest k end =
      (c : Cursor)
      → c.copied < n
      → fetch_pointers disk sb start n rest c ≡ done end
      → k c ≡ done end

  follow_walk :
      (w : Walk) (rest : List ℕ) (k : Cursor → Walk) (end : Cursor)
      → Below n w
      → Follows rest k end
      → and_walk w (fetch_pointers disk sb start n rest) ≡ done end
      → and_walk w k ≡ done end
  unfolding and_walk
  follow_walk (more c) rest k end b h e = h c b e
  follow_walk (done c) rest k end b h e = e
  follow_walk (failed x m) rest k end b h e = cc e

  follow_behind :
      (r : Result (List ℕ)) (rest : List ℕ) (k : Cursor → Walk) (end : Cursor)
      → Follows rest k end
      → Follows (in_block r rest) (λ c. and_walk (fetch_behind disk sb start n r c) k) end
  unfolding fetch_behind fetch_pointers
  follow_behind (ok b) rest k end h c lt e =
      pinned (fetch_pointers disk sb start n (words 128 b) c) k end (
        follow_walk (fetch_pointers disk sb start n (words 128 b) c) rest k end
          (fetch_pointers-Below (words 128 b) c lt) h
          (sym (fetch_pointers-append (words 128 b) rest c) ∙ e))
  follow_behind (err x) rest k end h c lt e = absurd (cc e)

  follow_inner :
      (ps rest : List ℕ) (k : Cursor → Walk) (end : Cursor)
      → Follows rest k end
      → Follows (behind disk sb ps rest) (λ c. and_walk (fetch_inner disk sb start n ps c) k) end
  unfolding fetch_inner and_walk
  follow_inner [] rest k end h c lt e = h c lt e
  follow_inner (p ∷ ps) rest k end h c lt e =
      let f : leb n c.copied ≡ false = ground arith in
      rw f (
        and_walk_assoc (fetch_behind disk sb start n (disk (data_pos sb p)) c)
          (fetch_inner disk sb start n ps) k
        ∙ follow_behind (disk (data_pos sb p)) (behind disk sb ps rest)
            (λ d. and_walk (fetch_inner disk sb start n ps d) k) end (follow_inner ps rest k end h)
            c lt e)

  follow_double :
      (r : Result (List ℕ)) (rest : List ℕ) (k : Cursor → Walk) (end : Cursor)
      → Follows rest k end
      → Follows
          (behind_block disk sb r rest)
          (λ c. and_walk (fetch_double disk sb start n r c) k)
          end
  unfolding fetch_double fetch_pointers
  follow_double (ok b) rest k end h c lt e =
      pinned (fetch_inner disk sb start n (words 128 b) c) k end
        (follow_inner (words 128 b) rest k end h c lt e)
  follow_double (err x) rest k end h c lt e = absurd (cc e)

  follow_outer :
      (ds : List ℕ) (end : Cursor)
      → Follows (doubly disk sb ds) (fetch_outer disk sb start n ds) end
  unfolding fetch_outer fetch_pointers
  follow_outer [] end c lt e = e
  follow_outer (d ∷ ds) end c lt e =
      let f : leb n c.copied ≡ false = ground arith in
      rw f (
        follow_double (disk (data_pos sb d)) (doubly disk sb ds) (fetch_outer disk sb start n ds)
          end (follow_outer ds end) c lt e)

  follow_indirect :
      (i : ℕ) (rest : List ℕ) (k : Cursor → Walk) (end : Cursor)
      → Follows rest k end
      → Follows (singly disk sb i rest) (λ c. and_walk (fetch_indirect disk sb start n i c) k) end
  unfolding fetch_indirect and_walk
  follow_indirect zero rest k end h c lt e = h c lt e
  follow_indirect (suc i) rest k end h c lt e =
      follow_behind (disk (data_pos sb (suc i))) rest k end h c lt e

  -- Where the one loop over all pointers copies what is asked for, the nested loops do the same.
  pub fetch_blocks-flat :
      (inode : Inode) (c end : Cursor)
      → c.copied < n
      → fetch_pointers disk sb start n (pointers disk sb inode) c ≡ done end
      → fetch_blocks disk sb start n inode c ≡ done end
  unfolding fetch_blocks pointers
  fetch_blocks-flat inode c end lt e =
      let rest = singly disk sb inode.indirect (doubly disk sb inode.dindirect) in
      let k = λ (d : Cursor).
        and_walk (fetch_indirect disk sb start n inode.indirect d)
          (fetch_outer disk sb start n inode.dindirect) in
      ap (λ w. and_walk w k) (direct_as_pointers inode.block c lt)
      ∙ follow_walk (fetch_pointers disk sb start n inode.block c) rest k end
          (fetch_pointers-Below inode.block c lt)
          (follow_indirect inode.indirect (doubly disk sb inode.dindirect)
            (fetch_outer disk sb start n inode.dindirect) end (follow_outer inode.dindirect end))
          (sym (fetch_pointers-append inode.block rest c) ∙ e)
