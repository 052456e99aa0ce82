-- ===== src/Cache/Stale.antt =====
-- A read error while src/modified/sys/cache.c replaces a block: `cache_fetch_into` has already
-- relabelled the victim, which stays in the list.
use unix_like_operating_syst.Base.{
  ℕ, ◌%◌, ◌≤◌, ◌≡◌, refl, ap, false, Option, none, some, List, [], ◌∷◌, ◌++◌, arith, All, length,
  eq→==, le→ltb,
}
use unix_like_operating_syst.Base.Results.{ok, err, Errno}
use unix_like_operating_syst.Cache.{
  Storage, Block, Cache, at_pos, is_empty, is_unpinned, block_size, max_blocks, split_first,
  fetch_into, hit, refilled, replace, evict, miss, get_block,
}
use unix_like_operating_syst.Cache.Find.{Walk, split_first-Walk, split_first-found, bytes_at_found}
use unix_like_operating_syst.Cache.Coherent.{view, or_fetch}

module _ (S : Storage) where
  open S use {Disk, fetch}

  full-not-empty : (bs : List Block) → length bs ≡ max_blocks → is_empty bs ≡ false
  full-not-empty [] e = absurd (omega arith)
  full-not-empty (b ∷ bs) e = refl

  -- The victim under its new position, with its old bytes.
  abbrev relabelled : Block → ℕ → Block
  relabelled v p = record v { pos = p; dirty = false; pins = 0 }

  abbrev stale : Cache Disk → ℕ → List Block → Block → List Block → Cache Disk
  stale c p pre v post = record c { blocks = pre ++ (relabelled v p ∷ post) }

  All-left :
      (p : ℕ) (xs ys : List Block)
      → All (λ x. at_pos p x ≡ false) (xs ++ ys)
      → All (λ x. at_pos p x ≡ false) xs
  All-left p [] ys h = tt
  All-left p (x ∷ xs) ys h = (h.0, All-left p xs ys h.1)

  replace_failed :
      (p : ℕ) (c : Cache Disk) (e : Errno) (pre post : List Block) (v : Block)
      → v.dirty ≡ false
      → fetch c.disk p v.buf ≡ err e
      → replace S c p pre v post ≡ (err e, stale c p pre v post)
  unfolding replace refilled fetch_into
  replace_failed p c e pre post v clean failed = ground (arith, clean, failed)

  get_block_failed :
      (alloc : Option ℕ) (p : ℕ) (c : Cache Disk) (e : Errno) (pre post : List Block) (v : Block)
      → p % block_size ≡ 0
      → length c.blocks ≡ max_blocks
      → max_blocks ≤ c.count
      → split_first (at_pos p) c.blocks ≡ none
      → split_first is_unpinned c.blocks ≡ some (pre, v, post)
      → v.dirty ≡ false
      → fetch c.disk p v.buf ≡ err e
      → get_block S alloc p c ≡ (err e, stale c p pre v post)
  unfolding get_block miss evict
  get_block_failed alloc p c e pre post v aligned full count absent victim clean failed =
      rw
        (
          eq→== (p % block_size) 0 aligned,
          absent,
          full-not-empty c.blocks full,
          le→ltb c.count max_blocks count,
          victim,
          evict,
        )
        (replace_failed p c e pre post v clean failed)

  hit_stale :
      (alloc : Option ℕ) (p : ℕ) (c : Cache Disk) (pre post : List Block) (v : Block)
      → p % block_size ≡ 0
      → All (λ x. at_pos p x ≡ false) pre
      → (get_block S alloc p (stale c p pre v post)).0 ≡ ok v.addr
  unfolding get_block hit
  hit_stale alloc p c pre post v aligned skipped = rw (
    eq→== (p % block_size) 0 aligned,
    split_first-found (at_pos p) pre post (relabelled v p) (eq→== p p refl) skipped,
  )

  -- Where a full cache has no block for a position that the device cannot read, and its first
  -- unpinned block is clean, `cache_get_block` reports the device's error, but a second call for
  -- the same position succeeds and hands out the bytes of the replaced block.
  pub get_block_stale :
      (alloc again : Option ℕ) (p : ℕ) (c : Cache Disk) (e : Errno) {pre post : List Block}
      {v : Block}
      → p % block_size ≡ 0
      → length c.blocks ≡ max_blocks
      → max_blocks ≤ c.count
      → split_first (at_pos p) c.blocks ≡ none
      → split_first is_unpinned c.blocks ≡ some (pre, v, post)
      → v.dirty ≡ false
      → fetch c.disk p v.buf ≡ err e
      → let (r, c') = get_block S alloc p c in
        (r ≡ err e) × ((get_block S again p c').0 ≡ ok v.addr) × (view S c' p ≡ ok v.buf)
  get_block_stale alloc again p c e {pre} {post} {v} aligned full count absent victim clean failed =
      let first : get_block S alloc p c ≡ (err e, stale c p pre v post) =
        get_block_failed alloc p c e pre post v aligned full count absent victim clean failed in
      let w : Walk is_unpinned c.blocks (some (pre, v, post)) =
        rw victim at (split_first-Walk is_unpinned c.blocks) in
      let none_at : All (λ x. at_pos p x ≡ false) (pre ++ (v ∷ post)) =
        rw w.0 at (rw absent at (split_first-Walk (at_pos p) c.blocks)) in
      let skipped : All (λ x. at_pos p x ≡ false) pre = All-left p pre (v ∷ post) none_at in
      rw first (
        refl,
        hit_stale again p c pre post v aligned skipped,
        ap (or_fetch S c.disk p)
            (bytes_at_found p pre post (relabelled v p) (eq→== p p refl) skipped),
      )
