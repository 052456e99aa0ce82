-- ===== src/Ktfs/Fetch/Content.antt =====
-- What `ktfs_fetch` of src/modified/sys/ktfs.c copies: a part of the file's content.
use unix_like_operating_syst.Base.{
  ℕ, zero, suc, ◌+◌, ◌-◌, ◌*◌, ◌%◌, min, ◌≡◌, ◌<◌, ◌≤◌, refl, sym, ap, ◌∙◌, inl, inr, true, false,
  List, [], ◌∷◌, ◌++◌, append-nil, append_assoc, arith, leb, ltb, ◌==◌, Bool-cases, ==→eq, ==→ne,
  ne→==, eq→==, length, length-append, take, drop, length-drop, take-append, drop-append, take-min,
  drop_all,
}
use unix_like_operating_syst.Base.Results.{ok}
use unix_like_operating_syst.Ktfs.Disk.{Disk, Superblock, data_pos}
use unix_like_operating_syst.Ktfs.Fetch.{
  Cursor, Walk, done, and_walk, intra_offset, advance, copy_block, walk_block, fetch_pointers,
}

-- The blocks joined.
abbrev pub bytes_of : List (List ℕ) → List ℕ
bytes_of [] = []
bytes_of (b ∷ bs) = b ++ bytes_of bs

-- The first pointers of a list lead to these blocks.
abbrev pub Reads : Disk → Superblock → List ℕ → List (List ℕ) → Type 0
Reads disk sb ps [] = Unit
Reads disk sb [] (b ∷ bs) = ⊥
Reads disk sb (p ∷ ps) (b ∷ bs) =
    (disk (data_pos sb p) ≡ ok b) × (length b ≡ 512) × Reads disk sb ps bs

-- What a walk ends with.
abbrev Ends : Walk → ℕ → List ℕ → Type 0
Ends w pos out = (c : Cursor) × (w ≡ done c) × (c.pos ≡ pos) × (c.out ≡ out)

-- What is wanted of a block and the ones behind it: a chunk of the block, and the rest.
chunk_take :
    (m i : ℕ) (b rest : List ℕ)
    → length b ≡ 512
    → i ≤ 512
    → take m (drop i (b ++ rest)) ≡ take (min (512 - i) m) (drop i b) ++ take (m - (512 - i)) rest
chunk_take m i b rest len h =
    ap (take m)
      (drop-append i b rest ∙ ap (λ (k : ℕ). drop i b ++ drop k rest) {y = 0} (omega (arith, len)))
    ∙ take-append m (drop i b) rest
    ∙ ap (λ t. t ++ take (m - length (drop i b)) rest) (sym (take-min m (drop i b)))
    ∙ ap (λ (k : ℕ). take (min k m) (drop i b) ++ take (m - k) rest) {y = 512 - i}
        (omega (arith, length-drop i b, len))

module _ (disk : Disk) (sb : Superblock) (start n : ℕ) where
  -- From the block where the copy begins.
  read_from :
      (ps : List ℕ) (bs : List (List ℕ)) (c : Cursor) (i : ℕ)
      → Reads disk sb ps bs
      → start ≤ c.walked
      → c.copied < n
      → intra_offset c ≡ i
      → i < 512
      → n - c.copied + i ≤ length (bytes_of bs)
      → Ends
          (fetch_pointers disk sb start n ps c)
          (c.pos + (n - c.copied))
          (c.out ++ take (n - c.copied) (drop i (bytes_of bs)))
  unfolding fetch_pointers walk_block copy_block and_walk advance
  read_from ps [] c i r s lt e small fits = absurd (omega arith)
  read_from [] (b ∷ bs) c i r s lt e small fits = absurd r
  read_from (p ∷ ps) (b ∷ bs) c i (rd, len, r) s lt e small fits =
      let below : leb n c.copied ≡ false = ground arith in
      let there : ltb c.walked start ≡ false = ground arith in
      let next = advance n c b in
      let pieces = chunk_take (n - c.copied) i b (bytes_of bs) len (omega arith) in
      let m = n - c.copied in
      let first = take (min (512 - i) m) (drop i b) in
      let cp : next.copied ≡ c.copied + min (512 - i) m =
        ap (λ (k : ℕ). c.copied + min (512 - k) m) e in
      let po : next.pos ≡ c.pos + min (512 - i) m = ap (λ (k : ℕ). c.pos + min (512 - k) m) e in
      let ou : next.out ≡ c.out ++ first =
        ap (λ (k : ℕ). c.out ++ take (min (512 - k) m) (drop k b)) e in
      let size : length (b ++ bytes_of bs) ≡ 512 + length (bytes_of bs) =
        omega (arith, length-append b (bytes_of bs), len) in
      rw below (
        rw there (
          rw rd (elim (Bool-cases (next.copied == n)) [
            | inl y ↦ rw y (
              next,
              refl,
              omega (arith, po, cp, ==→eq next.copied n y),
              ou
                  ∙ ap (λ t. c.out ++ t)
                      (sym (append-nil first)
                        ∙ ap (λ (k : ℕ). first ++ take k (bytes_of bs)) {x = 0} {y = m - (512 - i)}
                            (omega (arith, cp, ==→eq next.copied n y))
                        ∙ sym pieces),
            )
            | inr f ↦ rw f (
                let ne = ==→ne next.copied n f in
                let next_intra : intra_offset next ≡ 0 =
                  rw (ne→== next.copied 0 (omega (arith, cp))) refl in
                let (d, w, dp, do_) =
                  read_from ps bs next 0 r (omega (arith, s)) (omega (arith, cp, ne)) next_intra
                    (omega arith) (omega (arith, cp, fits, size)) in
                (
                  d,
                  w,
                  omega (arith, dp, po, cp),
                  do_
                      ∙ ap (λ t. t ++ take (n - next.copied) (bytes_of bs)) ou
                      ∙ append_assoc c.out first (take (n - next.copied) (bytes_of bs))
                      ∙ ap (λ t. c.out ++ t)
                          (ap (λ (k : ℕ). first ++ take k (bytes_of bs)) {x = n - next.copied}
                              {y = m - (512 - i)} (omega (arith, cp, ne))
                            ∙ sym pieces),
                ))
          ])))

  -- Before it, so many blocks are passed over.
  pub skip_to :
      (k : ℕ) (ps : List ℕ) (bs : List (List ℕ)) (c : Cursor)
      → Reads disk sb ps bs
      → start ≡ c.walked + k * 512
      → c.copied ≡ 0
      → c.out ≡ []
      → 0 < n
      → start ≤ c.pos
      → c.pos % 512 ≡ c.pos - start
      → n + (c.pos - c.walked) ≤ length (bytes_of bs)
      → Ends
          (fetch_pointers disk sb start n ps c)
          (c.pos + n)
          (take n (drop (c.pos - c.walked) (bytes_of bs)))
  unfolding fetch_pointers walk_block and_walk
  skip_to k ps [] c r s z empty some_n le e fits = absurd (omega arith)
  skip_to k [] (b ∷ bs) c r s z empty some_n le e fits = absurd r
  skip_to zero (p ∷ ps) (b ∷ bs) c r s z empty some_n le e fits =
      let (d, w, dp, do_) =
        read_from (p ∷ ps) (b ∷ bs) c (c.pos - c.walked) r (omega (arith, s)) (omega (arith, z))
          (rw (eq→== c.copied 0 z) (omega (arith, e, s))) (omega (arith, e, s))
          (omega (arith, z, fits)) in
      (
        d,
        w,
        omega (arith, dp, z),
        do_
            ∙ ap (λ t. t ++ take (n - c.copied) (drop (c.pos - c.walked) (bytes_of (b ∷ bs)))) empty
            ∙ ap (λ (j : ℕ). take (n - j) (drop (c.pos - c.walked) (bytes_of (b ∷ bs)))) z
            ∙ ap (λ (j : ℕ). take j (drop (c.pos - c.walked) (bytes_of (b ∷ bs)))) {x = n - 0}
                {y = n} (omega arith),
      )
  skip_to (suc k) (p ∷ ps) (b ∷ bs) c (rd, len, r) s z empty some_n le e fits =
      let below : leb n c.copied ≡ false = ground arith in
      let before : ltb c.walked start ≡ true = ground (arith, s) in
      let next : Cursor = record c { walked = c.walked + 512 } in
      let size : length (b ++ bytes_of bs) ≡ 512 + length (bytes_of bs) =
        omega (arith, length-append b (bytes_of bs), len) in
      let far : c.walked + 512 ≤ c.pos = omega (arith, s, le) in
      let (d, w, dp, do_) =
        skip_to k ps bs next r (omega (arith, s)) z empty some_n le e
          (omega (arith, fits, size, far)) in
      rw below (
        rw before (
          d,
          w,
          dp,
          do_
              ∙ ap (take n) (
                  sym (
                    drop-append (c.pos - c.walked) b (bytes_of bs)
                    ∙ ap (λ t. t ++ drop (c.pos - c.walked - length b) (bytes_of bs))
                        (drop_all (c.pos - c.walked) b (omega (arith, len, far)))
                    ∙ ap (λ (j : ℕ). drop j (bytes_of bs)) {x = c.pos - c.walked - length b}
                        {y = c.pos - (c.walked + 512)} (omega (arith, len, far)))),
        ))
