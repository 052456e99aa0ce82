-- ===== src/Cache/Release.antt =====
-- A client writes through its pointer and gives the block back: `cache_release_block` of
-- src/modified/sys/cache.c.
use unix_like_operating_syst.Base.{
  ℕ, ◌-◌, ◌≡◌, refl, sym, ap, ◌∙◌, true, false, none, some, List, ◌∷◌, ◌++◌, arith, ◌==◌,
  if◌then◌else◌, Bool-cases, inl, inr, length, Bool, ==→eq, eq→==, All,
}
use unix_like_operating_syst.Base.Results.{ok}
use unix_like_operating_syst.Cache.{Storage, Block, Cache, at_addr, split_first, release_block}
use unix_like_operating_syst.Cache.Find.{
  bytes_at, Distinct, Walk, split_first-Walk, split_first-found, bytes_at-append, Distinct-absent,
  Distinct-relabel, All-middle, All-insert,
}
use unix_like_operating_syst.Cache.Coherent.{or_fetch, view, AgreesWith, IsCoherent, length-middle}

-- What a client does with the pointer that it holds: other bytes in the block at an address.
unfoldable pub write_block : {D : Type 0} → ℕ → List ℕ → Cache D → Cache D
write_block a bytes c = elim (split_first (at_addr a) c.blocks) [
  | none ↦ c
  | some (pre, b, post) ↦ record c { blocks = pre ++ (record b { buf = bytes } ∷ post) }
]

module _ (S : Storage) where
  open S use {Disk, fetch}

  -- The block after the write and the release.
  abbrev returned : Block → List ℕ → Block
  returned b bytes = record b { buf = bytes; pins = b.pins - 1; dirty = true }

  bytes_at-returned :
      (q : ℕ) (pre post : List Block) (b b' : Block)
      → Distinct (pre ++ (b ∷ post))
      → b'.pos ≡ b.pos
      → bytes_at q (pre ++ (b' ∷ post))
        ≡ (if b.pos == q then some b'.buf else bytes_at q (pre ++ (b ∷ post)))
  bytes_at-returned q pre post b b' d e = elim (Bool-cases (b.pos == q)) [
    | inl t ↦
        let same : b.pos ≡ q = ==→eq b.pos q t in
        let before : bytes_at q pre ≡ none =
          ap (λ (n : ℕ). bytes_at n pre) (sym same) ∙ (Distinct-absent pre post b d).0 in
        let here : (b'.pos == q) ≡ true = eq→== b'.pos q (e ∙ same) in
        rw (t, bytes_at-append q pre (b' ∷ post), before, here)
    | inr f ↦
        let away : (b'.pos == q) ≡ false = ground arith in
        rw (f, bytes_at-append q pre (b' ∷ post), bytes_at-append q pre (b ∷ post), away) (rw f)
  ]

  write_block-eq :
      (a : ℕ) (bytes : List ℕ) (c : Cache Disk) (pre post : List Block) (b : Block)
      → split_first (at_addr a) c.blocks ≡ some (pre, b, post)
      → write_block a bytes c ≡ record c { blocks = pre ++ (record b { buf = bytes } ∷ post) }
  unfolding write_block
  write_block-eq a bytes c pre post b e = rw (e, write_block)

  release_write-eq :
      (a : ℕ) (bytes : List ℕ) (c : Cache Disk) (pre post : List Block) (b : Block)
      → split_first (at_addr a) c.blocks ≡ some (pre, b, post)
      → Walk (at_addr a) c.blocks (some (pre, b, post))
      → release_block S a true (write_block a bytes c)
        ≡ record c { blocks = pre ++ (returned b bytes ∷ post) }
  unfolding release_block
  release_write-eq a bytes c pre post b e w = rw (write_block-eq a bytes c pre post b e) (
      rw (split_first-found (at_addr a) pre post (record b { buf = bytes }) w.1 w.2, release_block))

  -- When a client overwrites the block at an address and releases it as dirty, a coherent cache is
  -- coherent again: at that block's position the new bytes are read, at all others what was read
  -- before, and the block has one pin less.
  pub release_block-writes :
      (a : ℕ) (bytes : List ℕ) (c : Cache Disk) {pre post : List Block} {b : Block}
      → IsCoherent S c
      → split_first (at_addr a) c.blocks ≡ some (pre, b, post)
      → let c' = release_block S a true (write_block a bytes c) in
        IsCoherent S c'
        × ((q : ℕ) → view S c' q ≡ (if b.pos == q then ok bytes else view S c q))
        × (c'.blocks ≡ pre ++ (record b { buf = bytes; pins = b.pins - 1; dirty = true } ∷ post))
  release_block-writes a bytes c {pre} {post} {b} h e =
      let w : Walk (at_addr a) c.blocks (some (pre, b, post)) =
        rw e at (split_first-Walk (at_addr a) c.blocks) in
      let d : Distinct (pre ++ (b ∷ post)) = rw w.0 at h.distinct in
      let agree : All (AgreesWith S c.disk) (pre ++ (b ∷ post)) = rw w.0 at h.clean in
      rw (release_write-eq a bytes c pre post b e w) (
        record {
          distinct = Distinct-relabel pre post b (returned b bytes) d refl;
          clean =
              All-insert (AgreesWith S c.disk) pre post (returned b bytes)
                (All-middle (AgreesWith S c.disk) pre post b agree).0
                ((All-middle (AgreesWith S c.disk) pre post b agree).1.0, λ t. cc t);
          counted = omega (
            arith,
            h.counted,
            ap (λ l. length l) w.0,
            length-middle S pre post b,
            length-middle S pre post (returned b bytes),
          );
          bounded = h.bounded;
        },
        λ q.
            ap (or_fetch S c.disk q) (bytes_at-returned q pre post b (returned b bytes) d refl)
            ∙ chosen q (b.pos == q) (ap (bytes_at q) (sym w.0)),
        refl,
      )
    where
      chosen :
          (q : ℕ) (t : Bool)
          → bytes_at q (pre ++ (b ∷ post)) ≡ bytes_at q c.blocks
          → or_fetch S c.disk q (if t then some bytes else bytes_at q (pre ++ (b ∷ post)))
            ≡ (if t then ok bytes else view S c q)
      chosen q true e' = refl
      chosen q false e' = rw e'
