-- ===== src/Cache.antt =====
-- The block cache of src/modified/sys/cache.c over a storage device.
--
-- A cache is the device's state, the linked list of blocks from head (least recently used) to tail
-- and the counter `numBlocks`. A block's address stands for the pointer to its buffer, which is how
-- a client names it; `kcalloc`'s answer is an argument, with `none` for a null pointer. Each call
-- holds `cache_lock` from its first access to the list to its last, so it is one step here.
pub mod Find
pub mod Coherent
pub mod Serve
pub mod Get
pub mod Pinned
pub mod Release
pub mod Stale
pub mod Flush
mod Tests
use unix_like_operating_syst.Base.{
  ℕ, ◌+◌, ◌-◌, ◌%◌, ◌≤◌, ◌≡◌, ◌≢◌, Bool, true, false, ◌||◌, Option, none, some, List, [], ◌∷◌, ◌++◌,
  ltb, ◌==◌, if◌then◌else◌, replicate,
}
use unix_like_operating_syst.Base.Results.{Result, ok, err, enotsup, enomem}

-- What the cache asks of its device: `storage_fetch` and `storage_store` of one block, by position.
-- A fetch takes what is in the buffer before it, for a device that reads less than a block leaves
-- the rest of the buffer; a store answers how many bytes it has stored. Within the capacity, a fetch
-- does not depend on the buffer and a store that does not fail is whole; a whole store is read back,
-- and no store touches another position.
pub record Storage : Type 1 where
  pub Disk : Type 0
  pub fetch : Disk → ℕ → List ℕ → Result (List ℕ)
  pub store : Disk → ℕ → List ℕ → Result ℕ × Disk
  pub capacity : ℕ
  pub fetch-whole :
      (d : Disk) (p : ℕ) (x y : List ℕ) → p + 512 ≤ capacity → fetch d p x ≡ fetch d p y
  pub store-whole :
      (d : Disk) (p n : ℕ) (b : List ℕ) → p + 512 ≤ capacity → (store d p b).0 ≡ ok n → n ≡ 512
  pub fetch-store :
      (d : Disk) (p : ℕ) (b x : List ℕ)
      → p + 512 ≤ capacity
      → (store d p b).0 ≡ ok 512
      → fetch (store d p b).1 p x ≡ ok b
  pub fetch-store_ne :
      (d : Disk) (p q : ℕ) (b x : List ℕ) → q ≢ p → fetch (store d p b).1 q x ≡ fetch d q x

abbrev pub block_size : ℕ
block_size = 512

-- `CACHE_BLKS`
abbrev pub max_blocks : ℕ
max_blocks = 64

-- `struct block`. C leaves open what happens when the `int pin_count` overflows; here it has no bound.
pub record Block : Type 0 where
  pub addr : ℕ
  pub pos : ℕ
  pub dirty : Bool
  pub buf : List ℕ
  pub pins : ℕ

pub record Cache (D : Type 0) : Type 0 where
  pub disk : D
  pub blocks : List Block
  pub count : ℕ

-- A block from `kcalloc`.
abbrev pub fresh : ℕ → Block
fresh a = record { addr = a; pos = 0; dirty = false; buf = replicate block_size 0; pins = 0 }

abbrev pub at_pos : ℕ → Block → Bool
at_pos p b = b.pos == p

abbrev pub at_addr : ℕ → Block → Bool
at_addr a b = b.addr == a

abbrev pub is_unpinned : Block → Bool
is_unpinned b = b.pins == 0

-- The walk along the list to the first block that passes a test: what stands before it, the block,
-- and what stands behind it.
abbrev pub Split : Type 0
Split = Option (List Block × Block × List Block)

abbrev pub behind : Block → Split → Split
behind b none = none
behind b (some (pre, x, post)) = some (b ∷ pre, x, post)

pub split_first : (Block → Bool) → List Block → Split
split_first test [] = none
split_first test (b ∷ bs) = if test b then some ([], b, bs) else behind b (split_first test bs)

-- `create_cache`: the null checks, then an empty cache; `none` as memory is a failed `kcalloc`.
pub create : {D : Type 0} → Option D → Bool → Option ℕ → Result (Cache D)
create none cptr memory = err enotsup
create (some disk) false memory = err enotsup
create (some disk) true none = err enomem
create (some disk) true (some a) = ok (record { disk = disk; blocks = []; count = 0 })

abbrev pub is_empty : List Block → Bool
is_empty [] = true
is_empty (_ ∷ _) = false

module _ (S : Storage) where
  open S use {Disk, fetch, store}

  -- `cache_fetch_into`: the block is relabelled before the read, so also when the read fails.
  pub fetch_into : Disk → Block → ℕ → Result (Unit {0}) × Block
  fetch_into d b p = elim (fetch d p b.buf) [
    | ok bytes ↦ (ok tt, record b { pos = p; dirty = false; buf = bytes; pins = 0 })
    | err e ↦ (err e, record b { pos = p; dirty = false; pins = 0 })
  ]

  -- A hit: one more pin, and the block moves to the tail.
  pub hit : Cache Disk → List Block → Block → List Block → Result ℕ × Cache Disk
  hit c pre b post =
      (ok b.addr, record c { blocks = pre ++ (post ++ (record b { pins = b.pins + 1 } ∷ [])) })

  pub link_tail : ℕ → Cache Disk → Result (Unit {0}) × Block → Result ℕ × Cache Disk
  link_tail a c (ok _, b) = (
    ok a,
    record c { blocks = c.blocks ++ (record b { pins = 1 } ∷ []); count = (c.count + 1) % 256 },
  )
  link_tail a c (err e, b) = (err e, c)

  -- A miss with room: allocate, fetch, then link at the tail.
  pub add_block : Option ℕ → ℕ → Cache Disk → Result ℕ × Cache Disk
  add_block none p c = (err enomem, c)
  add_block (some a) p c = link_tail a c (fetch_into c.disk (fresh a) p)

  pub refilled :
      Cache Disk
      → List Block
      → List Block
      → Disk
      → Result (Unit {0}) × Block
      → Result ℕ × Cache Disk
  refilled c pre post d (ok _, b) =
      (ok b.addr, record c { disk = d; blocks = pre ++ (post ++ (record b { pins = 1 } ∷ [])) })
  refilled c pre post d (err e, b) = (err e, record c { disk = d; blocks = pre ++ (b ∷ post) })

  -- What follows the store of a dirty victim: it is marked clean, filled and moved to the tail.
  pub written_back :
      Cache Disk → ℕ → List Block → Block → List Block → Result ℕ × Disk → Result ℕ × Cache Disk
  written_back c p pre v post (ok _, d) =
      refilled c pre post d (fetch_into d (record v { dirty = false }) p)
  written_back c p pre v post (err e, d) = (err e, record c { disk = d })

  pub replace : Cache Disk → ℕ → List Block → Block → List Block → Result ℕ × Cache Disk
  replace c p pre v post =
      if v.dirty
      then written_back c p pre v post (store c.disk v.pos v.buf)
      else refilled c pre post c.disk (fetch_into c.disk v p)

  -- A miss with no room: the first unpinned block from the head is the victim.
  pub evict : ℕ → Cache Disk → Result ℕ × Cache Disk
  evict p c = elim (split_first is_unpinned c.blocks) [
    | none ↦ (err enotsup, c)
    | some (pre, v, post) ↦ replace c p pre v post
  ]

  pub miss : Option ℕ → ℕ → Cache Disk → Result ℕ × Cache Disk
  miss alloc p c =
      if is_empty c.blocks || ltb c.count max_blocks then add_block alloc p c else evict p c

  -- `cache_get_block`
  pub get_block : Option ℕ → ℕ → Cache Disk → Result ℕ × Cache Disk
  get_block alloc p c =
      if p % block_size == 0
      then elim (split_first (at_pos p) c.blocks) [
        | none ↦ miss alloc p c
        | some (pre, b, post) ↦ hit c pre b post
      ]
      else (err enotsup, c)

  -- `cache_release_block`
  pub release_block : ℕ → Bool → Cache Disk → Cache Disk
  release_block a dirty c = elim (split_first (at_addr a) c.blocks) [
    | none ↦ c
    | some (pre, b, post) ↦ record c {
      blocks =
          pre ++ (record b { pins = b.pins - 1; dirty = if dirty then true else b.dirty } ∷ post);
    }
  ]

  -- The loop of `cache_flush`: dirty blocks are stored from the head on, until a store fails.
  pub flush_rest :
      Block
      → List Block
      → (Disk → Result (Unit {0}) × Disk × List Block)
      → Result ℕ × Disk
      → Result (Unit {0}) × Disk × List Block
  flush_rest b bs rest (ok _, d) =
      let (r, d', bs') = rest d in (r, d', record b { dirty = false } ∷ bs')
  flush_rest b bs rest (err e, d) = (err e, d, b ∷ bs)

  pub flush_blocks : Disk → List Block → Result (Unit {0}) × Disk × List Block
  flush_blocks d [] = (ok tt, d, [])
  flush_blocks d (b ∷ bs) =
      let clean = flush_blocks d bs in
      if b.dirty
      then flush_rest b bs (λ d'. flush_blocks d' bs) (store d b.pos b.buf)
      else (clean.0, clean.1, b ∷ clean.2)

  -- `cache_flush`
  pub flush : Cache Disk → Result (Unit {0}) × Cache Disk
  flush c = let (r, d, bs) = flush_blocks c.disk c.blocks in (r, record c { disk = d; blocks = bs })
