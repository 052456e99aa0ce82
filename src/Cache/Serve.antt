-- ===== src/Cache/Serve.antt =====
-- The steps of `cache_get_block` of src/modified/sys/cache.c, each with what it hands out.
use unix_like_operating_syst.Base.{
  ℕ, ◌+◌, ◌%◌, ◌≤◌, ◌<◌, ◌≡◌, refl, sym, ap, ◌∙◌, ◌≢◌, ◌-◌, true, false, Option, none, some, List,
  [], ◌∷◌, ◌++◌, arith, length, append_assoc, ==→eq,
}
use mathlib.Core.Path.{subst, subst₂}
use unix_like_operating_syst.Base.Results.{Result, ok, err}
use unix_like_operating_syst.Cache.{
  Storage, Block, Cache, at_pos, max_blocks, fresh, fetch_into, hit, link_tail, add_block, refilled,
  written_back,
}
use unix_like_operating_syst.Cache.Find.{
  bytes_at, Distinct, Walk, bytes_at_found, bytes_at_member, bytes_at-replace, bytes_at-remove,
}
use unix_like_operating_syst.Cache.Coherent.{
  or_fetch, content, view, IsCoherent, Keeps, length-middle, move-Keeps, add-Keeps, drop-Keeps,
  store-Keeps, store_failed-Keeps,
}

module _ (S : Storage) where
  open S use {Disk, fetch, store, capacity, fetch-whole, fetch-store_ne}

  -- The tail of the list is the block at an address, for a position, pinned, with given bytes.
  pub record AtTail (bs : List Block) (a p : ℕ) (bytes : Result (List ℕ)) : Type 0 where
    pub init : List Block
    pub block : Block
    pub whole : bs ≡ init ++ (block ∷ [])
    pub address : a ≡ block.addr
    pub position : block.pos ≡ p
    pub contents : bytes ≡ ok block.buf
    pub pinned : 0 < block.pins

  -- A call that returns, successfully or not, keeps the promises of the cache; one that succeeds
  -- hands out the block at the tail, with the bytes that the cache `old` promised at `p`.
  abbrev pub Serves : Cache Disk → ℕ → Result ℕ × Cache Disk → Type 0
  Serves old p (ok a, c) = Keeps S old c × AtTail c.blocks a p (view S old p)
  Serves old p (err _, c) = Keeps S old c

  -- A call on a cache that keeps the promises of another serves that one too.
  pub Serves-Keeps :
      (old c : Cache Disk) (p : ℕ) (r : Result ℕ × Cache Disk)
      → Keeps S old c
      → Serves c p r
      → Serves old p r
  Serves-Keeps old c p (ok a, c') (h, same) ((h', same'), t) = (
    (h', λ q. same' q ∙ same q),
    record {
      init = t.init;
      block = t.block;
      whole = t.whole;
      address = t.address;
      position = t.position;
      contents = sym (same p) ∙ t.contents;
      pinned = t.pinned;
    },
  )
  Serves-Keeps old c p (err e, c') (h, same) (h', same') = (h', λ q. same' q ∙ same q)

  pub hit-Serves :
      (c : Cache Disk) (p : ℕ) (pre post : List Block) (b : Block)
      → IsCoherent S c
      → Walk (at_pos p) c.blocks (some (pre, b, post))
      → Serves c p (hit S c pre b post)
  unfolding hit
  hit-Serves c p pre post b h (e, t, skipped) =
      let b' : Block = record b { pins = b.pins + 1 } in
      (
        move-Keeps S c pre post b b' h e refl refl refl,
        record {
          init = pre ++ post;
          block = b';
          whole = sym (append_assoc pre post (b' ∷ []));
          address = refl;
          position = ==→eq b.pos p t;
          contents =
              ap (or_fetch S c.disk p) (ap (bytes_at p) e ∙ bytes_at_found p pre post b t skipped);
          pinned = omega arith;
        },
      )

  -- What a successful read of the device makes of a block.
  abbrev filled : Block → ℕ → List ℕ → Block
  filled b p bytes = record b { pos = p; dirty = false; buf = bytes; pins = 0 }

  fetch_into_ok :
      (d : Disk) (b : Block) (p : ℕ) (bytes : List ℕ)
      → p + 512 ≤ capacity
      → content S d p ≡ ok bytes
      → fetch_into S d b p ≡ (ok tt, filled b p bytes)
  unfolding fetch_into
  fetch_into_ok d b p bytes inside e = rw (fetch-whole d p b.buf [] inside ∙ e, fetch_into)

  -- The block that a client is handed after a read: linked at the tail with one pin.
  linked-Serves :
      (c : Cache Disk) (p : ℕ) (b : Block) (bytes : List ℕ)
      → IsCoherent S c
      → bytes_at p c.blocks ≡ none
      → p + 512 ≤ capacity
      → content S c.disk p ≡ ok bytes
      → c.count < max_blocks
      → Serves c p (
        ok b.addr,
        record c {
          blocks = c.blocks ++ (record b { pos = p; dirty = false; buf = bytes; pins = 1 } ∷ []);
          count = c.count + 1;
        },
      )
  linked-Serves c p b bytes h absent inside read room =
      let b' : Block = record b { pos = p; dirty = false; buf = bytes; pins = 1 } in
      (
        add-Keeps S c b' h absent inside read room,
        record {
          init = c.blocks;
          block = b';
          whole = refl;
          address = refl;
          position = refl;
          contents = ap (or_fetch S c.disk p) absent ∙ read;
          pinned = omega arith;
        },
      )

  pub add_block-Serves :
      (alloc : Option ℕ) (p : ℕ) (c : Cache Disk) (bytes : List ℕ)
      → IsCoherent S c
      → bytes_at p c.blocks ≡ none
      → p + 512 ≤ capacity
      → content S c.disk p ≡ ok bytes
      → c.count < max_blocks
      → Serves c p (add_block S alloc p c)
  unfolding add_block link_tail
  add_block-Serves none p c bytes h absent inside read room = (h, λ q. refl)
  add_block-Serves (some a) p c bytes h absent inside read room =
      let b : Block = fresh a in
      let small : (c.count + 1) % 256 ≡ c.count + 1 = omega (arith, room) in
      rw (fetch_into_ok c.disk b p bytes inside read, small)
        (linked-Serves c p b bytes h absent inside read room)

  -- Filling a clean victim again: it is dropped, and a new block is linked.
  pub refilled-Serves :
      (c : Cache Disk) (p : ℕ) (pre post : List Block) (v : Block) (bytes : List ℕ)
      → IsCoherent S c
      → c.blocks ≡ pre ++ (v ∷ post)
      → v.dirty ≡ false
      → bytes_at p c.blocks ≡ none
      → p + 512 ≤ capacity
      → content S c.disk p ≡ ok bytes
      → Serves c p (refilled S c pre post c.disk (fetch_into S c.disk v p))
  unfolding refilled
  refilled-Serves c p pre post v bytes h e clean absent inside read =
      rw (fetch_into_ok c.disk v p bytes inside read) (
        subst₂
          (λ (bs : List Block) (k : ℕ). Serves c p (ok v.addr, record c { blocks = bs; count = k }))
          (append_assoc pre post (record (filled v p bytes) { pins = 1 } ∷ [])) whole
          (Serves-Keeps c dropped p linked kept
            (linked-Serves dropped p v bytes kept.0 gone inside read (omega (arith, h.bounded)))))
    where
      dropped : Cache Disk
      dropped = record c { blocks = pre ++ post; count = c.count - 1 }

      whole : c.count - 1 + 1 ≡ c.count
      whole = omega (arith, h.counted, ap (λ l. length l) e, length-middle S pre post v)

      gone : bytes_at p (pre ++ post) ≡ none
      gone = ground (arith, bytes_at-remove p pre post v (rw e at h.distinct), ap (bytes_at p) e)

      kept : Keeps S c dropped
      kept = drop-Keeps S c (c.count - 1) pre post v h e clean (sym whole)

      linked : Result ℕ × Cache Disk
      linked = (
        ok v.addr,
        record dropped {
          blocks = (pre ++ post) ++ (record (filled v p bytes) { pins = 1 } ∷ []);
          count = c.count - 1 + 1;
        },
      )

  -- `refilled` overwrites the device's state and the list of the cache that it is given.
  refilled-overwrite :
      (c : Cache Disk) (bs pre post : List Block) (d : Disk) (r : Result (Unit {0}) × Block)
      → refilled S (record c { disk = d; blocks = bs }) pre post d r ≡ refilled S c pre post d r
  unfolding refilled
  refilled-overwrite c bs pre post d (ok x, b) = refl
  refilled-overwrite c bs pre post d (err x, b) = refl

  absent_ne :
      (p : ℕ) (bs pre post : List Block) (v : Block)
      → Distinct bs
      → bs ≡ pre ++ (v ∷ post)
      → bytes_at p bs ≡ none
      → p ≢ v.pos
  absent_ne p bs pre post v d e absent same = cc (
    bytes_at_member pre post v (rw e at d),
    ap (λ l. bytes_at v.pos l) e,
    ap (λ n. bytes_at n bs) same,
  )

  pub written_back-Serves :
      (c : Cache Disk) (p : ℕ) (pre post : List Block) (v : Block) (bytes : List ℕ)
      (r : Result ℕ × Disk)
      → store c.disk v.pos v.buf ≡ r
      → IsCoherent S c
      → c.blocks ≡ pre ++ (v ∷ post)
      → v.dirty ≡ true
      → bytes_at p c.blocks ≡ none
      → p + 512 ≤ capacity
      → content S c.disk p ≡ ok bytes
      → Serves c p (written_back S c p pre v post r)
  unfolding written_back
  written_back-Serves c p pre post v bytes (ok x, d) s h e dirty absent inside read =
      subst (Serves c p) (refilled-overwrite c clean_blocks pre post d (fetch_into S d v' p)) (
        Serves-Keeps c stored p (refilled S stored pre post d (fetch_into S d v' p)) kept
          (refilled-Serves stored p pre post v' bytes kept.0 refl refl gone inside still))
    where
      v' : Block
      v' = record v { dirty = false }

      clean_blocks : List Block
      clean_blocks = pre ++ (v' ∷ post)

      stored : Cache Disk
      stored = record c { disk = d; blocks = clean_blocks }

      kept : Keeps S c stored
      kept =
          subst (λ (d' : Disk). Keeps S c (record c { disk = d'; blocks = clean_blocks }))
            (ap (λ r. r.1) s) (store-Keeps S c pre post v h e (ap (λ r. r.0) s))

      gone : bytes_at p clean_blocks ≡ none
      gone = bytes_at-replace p pre post v v' refl refl ∙ ap (bytes_at p) (sym e) ∙ absent

      still : content S d p ≡ ok bytes
      still =
          subst (λ (d' : Disk). content S d' p ≡ ok bytes) (ap (λ r. r.1) s)
            (fetch-store_ne c.disk v.pos p v.buf []
                (absent_ne p c.blocks pre post v h.distinct e absent)
              ∙ read)
  written_back-Serves c p pre post v bytes (err x, d) s h e dirty absent inside read =
      subst (λ (d' : Disk). Keeps S c (record c { disk = d' })) (ap (λ r. r.1) s)
        (store_failed-Keeps S c pre post v h e dirty)
