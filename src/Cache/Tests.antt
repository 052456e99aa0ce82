-- ===== src/Cache/Tests.antt =====
-- The block cache of src/modified/sys/cache.c on small caches over a device in memory.
use unix_like_operating_syst.Base.{
  ℕ, zero, suc, ◌+◌, ◌*◌, ◌≡◌, ◌≢◌, refl, sym, inl, inr, Bool, true, false, none, some, List, [],
  ◌∷◌, arith, leb, ◌≤◌, ◌==◌, if◌then◌else◌, put, Bool-cases, eq→==, ne→==,
}
use unix_like_operating_syst.Base.Results.{Result, ok, err, eio}
use unix_like_operating_syst.Cache.{
  Storage, Block, Cache, split_first, get_block, release_block, flush, flush_blocks, flush_rest,
}
use unix_like_operating_syst.Cache.Coherent.{view, IsCoherent}
use unix_like_operating_syst.Cache.Serve.{Serves}
use unix_like_operating_syst.Cache.Get.{get_block-Serves}
use unix_like_operating_syst.Cache.Pinned.{Held, get_block-Held}
use unix_like_operating_syst.Cache.Release.{write_block, release_block-writes}
use unix_like_operating_syst.Cache.Flush.{Flushes, flush-Flushes}
use unix_like_operating_syst.Cache.Stale.{get_block_stale}

-- A device of a million bytes: any other position fails.
abbrev limit : ℕ
limit = 1_000_000

abbrev disk_fetch : (ℕ → List ℕ) → ℕ → List ℕ → Result (List ℕ)
disk_fetch d p x = if leb (p + 512) limit then ok (d p) else err eio

abbrev disk_store : (ℕ → List ℕ) → ℕ → List ℕ → Result ℕ × (ℕ → List ℕ)
disk_store d p b = if leb (p + 512) limit then (ok 512, put d p b) else (err eio, d)

disk_whole :
    (d : ℕ → List ℕ) (p n : ℕ) (b : List ℕ)
    → p + 512 ≤ limit
    → (disk_store d p b).0 ≡ ok n
    → n ≡ 512
disk_whole d p n b h e = let t : leb (p + 512) limit ≡ true = ground (arith, h) in cc (rw t at e)

disk_read_back :
    (d : ℕ → List ℕ) (p : ℕ) (b x : List ℕ)
    → p + 512 ≤ limit
    → (disk_store d p b).0 ≡ ok 512
    → disk_fetch (disk_store d p b).1 p x ≡ ok b
disk_read_back d p b x h e =
    let t : leb (p + 512) limit ≡ true = ground (arith, h) in rw (t, eq→== p p refl) refl

disk_elsewhere :
    (d : ℕ → List ℕ) (p q : ℕ) (b x : List ℕ)
    → q ≢ p
    → disk_fetch (disk_store d p b).1 q x ≡ disk_fetch d q x
disk_elsewhere d p q b x ne = elim (Bool-cases (leb (p + 512) limit)) [
  | inl y ↦ rw (y, ne→== p q (λ e. ne (sym e))) refl
  | inr n ↦ rw n refl
]

abbrev memory_disk : Storage
memory_disk = record {
  Disk = ℕ → List ℕ;
  fetch = disk_fetch;
  store = disk_store;
  capacity = limit;
  fetch-whole = λ d p x y h. refl;
  store-whole = disk_whole;
  fetch-store = disk_read_back;
  fetch-store_ne = disk_elsewhere;
}

abbrev blank : ℕ → List ℕ
blank p = 7 ∷ p ∷ []

-- A dirty block, pinned once, behind a clean one.
abbrev two_blocks : Cache (ℕ → List ℕ)
two_blocks = record {
  disk = blank;
  blocks =
      record { addr = 100; pos = 0; dirty = false; buf = 7 ∷ 0 ∷ []; pins = 0 }
      ∷ record { addr = 200; pos = 512; dirty = true; buf = 9 ∷ []; pins = 1 }
      ∷ [];
  count = 2;
}

two_blocks-IsCoherent : IsCoherent memory_disk two_blocks
two_blocks-IsCoherent = record {
  distinct = (refl, (refl, tt));
  clean = ((omega arith, λ e. refl), ((omega arith, λ e. cc e), tt));
  counted = refl;
  bounded = omega arith;
}

get_block-Serves_example :
    Serves memory_disk two_blocks 1024 (get_block memory_disk (some 300) 1024 two_blocks)
get_block-Serves_example =
    get_block-Serves memory_disk (some 300) 1024 two_blocks (7 ∷ 1024 ∷ []) two_blocks-IsCoherent
      refl (omega arith) refl

get_block-Held_example :
    Held 200 512 (9 ∷ []) (get_block memory_disk (some 300) 1024 two_blocks).1.blocks
get_block-Held_example =
    get_block-Held 200 512 (9 ∷ []) memory_disk (some 300) 1024 two_blocks
      (inr (inl (refl, refl, refl, omega arith)))

flush-Flushes_example : Flushes memory_disk two_blocks (flush memory_disk two_blocks)
flush-Flushes_example = flush-Flushes memory_disk two_blocks two_blocks-IsCoherent

release_block-writes_example :
    let c' = release_block memory_disk 200 true (write_block 200 (5 ∷ []) two_blocks) in
    IsCoherent memory_disk c'
    × ((q : ℕ)
        → view memory_disk c' q ≡ (if 512 == q then ok (5 ∷ []) else view memory_disk two_blocks q))
    × (c'.blocks
        ≡ record { addr = 100; pos = 0; dirty = false; buf = 7 ∷ 0 ∷ []; pins = 0 }
          ∷ record { addr = 200; pos = 512; dirty = true; buf = 5 ∷ []; pins = 0 }
          ∷ [])
unfolding split_first
release_block-writes_example =
    release_block-writes memory_disk 200 (5 ∷ []) two_blocks two_blocks-IsCoherent refl

-- Blocks for the positions from a multiple of 512 on, none of them pinned.
abbrev clean_blocks : ℕ → ℕ → List Block
clean_blocks zero k = []
clean_blocks (suc n) k =
    record { addr = k; pos = k * 512; dirty = false; buf = 7 ∷ k * 512 ∷ []; pins = 0 }
    ∷ clean_blocks n (k + 1)

abbrev full_cache : Cache (ℕ → List ℕ)
full_cache = record { disk = blank; blocks = clean_blocks 64 0; count = 64 }

get_block_stale_example :
    let (r, c') = get_block memory_disk none 1_048_576 full_cache in
    (r ≡ err eio)
    × ((get_block memory_disk none 1_048_576 c').0 ≡ ok 0)
    × (view memory_disk c' 1_048_576 ≡ ok (7 ∷ 0 ∷ []))
unfolding split_first
get_block_stale_example =
    get_block_stale memory_disk none none 1_048_576 full_cache eio refl refl (omega arith) refl refl
      refl refl

-- A device that transfers nothing behind its capacity, and reports no error there.
abbrev short_fetch : (ℕ → List ℕ) → ℕ → List ℕ → Result (List ℕ)
short_fetch d p x = if leb (p + 512) limit then ok (d p) else ok x

abbrev short_store : (ℕ → List ℕ) → ℕ → List ℕ → Result ℕ × (ℕ → List ℕ)
short_store d p b = if leb (p + 512) limit then (ok 512, put d p b) else (ok 0, d)

inside : (p : ℕ) → p + 512 ≤ limit → leb (p + 512) limit ≡ true
inside p h = ground (arith, h)

short_whole :
    (d : ℕ → List ℕ) (p n : ℕ) (b : List ℕ)
    → p + 512 ≤ limit
    → (short_store d p b).0 ≡ ok n
    → n ≡ 512
short_whole d p n b h e = cc (rw (inside p h) at e)

short_elsewhere :
    (d : ℕ → List ℕ) (p q : ℕ) (b x : List ℕ)
    → q ≢ p
    → short_fetch (short_store d p b).1 q x ≡ short_fetch d q x
short_elsewhere d p q b x ne = elim (Bool-cases (leb (p + 512) limit)) [
  | inl y ↦ rw (y, ne→== p q (λ e. ne (sym e))) refl
  | inr n ↦ rw n refl
]

abbrev short_disk : Storage
short_disk = record {
  Disk = ℕ → List ℕ;
  fetch = short_fetch;
  store = short_store;
  capacity = limit;
  fetch-whole = λ d p x y h. rw (inside p h) refl;
  store-whole = short_whole;
  fetch-store = λ d p b x h e. rw (inside p h, eq→== p p refl) refl;
  fetch-store_ne = short_elsewhere;
}

-- Behind the capacity of such a device, a dirty block is marked clean though nothing is stored.
abbrev beyond : Bool → Cache (ℕ → List ℕ)
beyond dirty = record {
  disk = blank;
  blocks = record { addr = 100; pos = 1_048_576; dirty = dirty; buf = 9 ∷ []; pins = 0 } ∷ [];
  count = 1;
}

flush_lost : flush short_disk (beyond true) ≡ (ok tt, beyond false)
unfolding flush flush_blocks flush_rest
flush_lost = refl
