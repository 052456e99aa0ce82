-- ===== src/Cache/Get.antt =====
-- `cache_get_block` of src/modified/sys/cache.c hands out the bytes of the position asked for, and
-- the cache stays coherent.
use unix_like_operating_syst.Base.{
  ℕ, ◌+◌, ◌≤◌, ◌%◌, ◌≡◌, refl, true, ◌||◌, Option, none, some, List, [], ◌∷◌, ◌++◌, arith, ltb,
  Bool-cases, inl, inr, length, eq→==,
}
use unix_like_operating_syst.Base.Results.{ok}
use unix_like_operating_syst.Cache.{
  Storage, Block, Cache, Split, at_pos, is_unpinned, is_empty, block_size, max_blocks, split_first,
  replace, evict, miss, get_block,
}
use unix_like_operating_syst.Cache.Find.{bytes_at, Walk, split_first-Walk, bytes_at-none}
use unix_like_operating_syst.Cache.Coherent.{content, IsCoherent}
use unix_like_operating_syst.Cache.Serve.{
  Serves, hit-Serves, add_block-Serves, refilled-Serves, written_back-Serves,
}

module _ (S : Storage) where
  open S use {Disk, store, capacity}

  replace-Serves :
      (c : Cache Disk) (p : ℕ) (pre post : List Block) (v : Block) (bytes : List ℕ)
      → IsCoherent S c
      → c.blocks ≡ pre ++ (v ∷ post)
      → bytes_at p c.blocks ≡ none
      → p + 512 ≤ capacity
      → content S c.disk p ≡ ok bytes
      → Serves S c p (replace S c p pre v post)
  unfolding replace
  replace-Serves c p pre post v bytes h e absent inside read = elim (Bool-cases v.dirty) [
    | inl t ↦ simp t (
        written_back-Serves S c p pre post v bytes (store c.disk v.pos v.buf) refl h e t absent
          inside read)
    | inr f ↦ simp f (refilled-Serves S c p pre post v bytes h e f absent inside read)
  ]

  evict-Serves :
      (c : Cache Disk) (p : ℕ) (bytes : List ℕ) (s : Split)
      → split_first is_unpinned c.blocks ≡ s
      → Walk is_unpinned c.blocks s
      → IsCoherent S c
      → bytes_at p c.blocks ≡ none
      → p + 512 ≤ capacity
      → content S c.disk p ≡ ok bytes
      → Serves S c p (evict S p c)
  unfolding evict
  evict-Serves c p bytes none e w h absent inside read = rw (e, evict) (h, λ q. refl)
  evict-Serves c p bytes (some (pre, v, post)) e w h absent inside read =
      rw (e, evict) (replace-Serves c p pre post v bytes h w.0 absent inside read)

  is_empty-count : (bs : List Block) → is_empty bs ≡ true → length bs ≡ 0
  is_empty-count [] e = refl
  is_empty-count (b ∷ bs) e = cc

  miss-Serves :
      (alloc : Option ℕ) (p : ℕ) (c : Cache Disk) (bytes : List ℕ)
      → IsCoherent S c
      → bytes_at p c.blocks ≡ none
      → p + 512 ≤ capacity
      → content S c.disk p ≡ ok bytes
      → Serves S c p (miss S alloc p c)
  unfolding miss
  miss-Serves alloc p c bytes h absent inside read =
      elim (Bool-cases (is_empty c.blocks || ltb c.count max_blocks)) [
        | inl t ↦ rw t (
            add_block-Serves S alloc p c bytes h absent inside read
              (ground (arith, h.counted, is_empty-count c.blocks, t)))
        | inr f ↦ rw f (
            evict-Serves c p bytes (split_first is_unpinned c.blocks) refl
              (split_first-Walk is_unpinned c.blocks) h absent inside read)
      ]

  get_block-found :
      (alloc : Option ℕ) (p : ℕ) (c : Cache Disk) (bytes : List ℕ) (s : Split)
      → split_first (at_pos p) c.blocks ≡ s
      → Walk (at_pos p) c.blocks s
      → IsCoherent S c
      → p % block_size ≡ 0
      → p + 512 ≤ capacity
      → content S c.disk p ≡ ok bytes
      → Serves S c p (get_block S alloc p c)
  unfolding get_block
  get_block-found alloc p c bytes none e w h aligned inside read =
      rw (eq→== (p % block_size) 0 aligned, e)
        (miss-Serves alloc p c bytes h (bytes_at-none p c.blocks w) inside read)
  get_block-found alloc p c bytes (some (pre, b, post)) e w h aligned inside read =
      rw (eq→== (p % block_size) 0 aligned, e) (hit-Serves S c p pre post b h w)

  -- On a coherent cache, all blocks of which are within the capacity of the device, for a position at
  -- a multiple of 512 that is within the capacity too and that the device can read,
  -- `cache_get_block` leaves the cache coherent and changes what is read at no position, also when
  -- it fails; when it succeeds, the address that it returns is the block at the tail, which is for
  -- the position asked for, is pinned, and holds the bytes that stand at that position.
  pub get_block-Serves :
      (alloc : Option ℕ) (p : ℕ) (c : Cache Disk) (bytes : List ℕ)
      → IsCoherent S c
      → p % block_size ≡ 0
      → p + 512 ≤ capacity
      → content S c.disk p ≡ ok bytes
      → Serves S c p (get_block S alloc p c)
  get_block-Serves alloc p c bytes h aligned inside read =
      get_block-found alloc p c bytes (split_first (at_pos p) c.blocks) refl
        (split_first-Walk (at_pos p) c.blocks) h aligned inside read
