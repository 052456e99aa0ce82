-- ===== src/Cache/Pinned.antt =====
-- A pointer that src/modified/sys/cache.c has handed out stays good until it is released.
use unix_like_operating_syst.Base.{
  ℕ, ◌+◌, ◌%◌, ◌<◌, ◌≡◌, refl, ◌⊎◌, true, false, ◌||◌, Option, none, some, List, [], ◌∷◌, ◌++◌,
  arith, ltb, ◌==◌, Bool-cases, inl, inr, ==→eq,
}
use unix_like_operating_syst.Base.Results.{Result, ok, err}
use unix_like_operating_syst.Cache.{
  Storage, Block, Cache, Split, at_pos, is_unpinned, is_empty, block_size, max_blocks, split_first,
  fetch_into, hit, link_tail, add_block, refilled, written_back, replace, evict, miss, get_block,
}
use unix_like_operating_syst.Cache.Find.{Walk, split_first-Walk}

-- A pinned block of the list at an address, for a position, with given bytes.
abbrev pub Held : ℕ → ℕ → List ℕ → List Block → Type 0
Held a q bytes [] = ⊥
Held a q bytes (b ∷ bs) =
    ((b.addr ≡ a) × (b.pos ≡ q) × (b.buf ≡ bytes) × (0 < b.pins)) ⊎ Held a q bytes bs

module _ (a q : ℕ) (bytes : List ℕ) where
  Held-left : (xs ys : List Block) → Held a q bytes xs → Held a q bytes (xs ++ ys)
  Held-left (x ∷ xs) ys (inl h) = inl h
  Held-left (x ∷ xs) ys (inr h) = inr (Held-left xs ys h)
  Held-left [] ys h = absurd h

  Held-right : (xs ys : List Block) → Held a q bytes ys → Held a q bytes (xs ++ ys)
  Held-right [] ys h = h
  Held-right (x ∷ xs) ys h = inr (Held-right xs ys h)

  -- A block in the middle may be replaced where it is, if what it holds is held after.
  Held-swap :
      (pre post : List Block) (v v' : Block)
      → (Held a q bytes (v ∷ []) → Held a q bytes (v' ∷ []))
      → Held a q bytes (pre ++ (v ∷ post))
      → Held a q bytes (pre ++ (v' ∷ post))
  Held-swap [] post v v' f (inl h) = elim (f (inl h)) [ inl k ↦ inl k | inr k ↦ absurd k ]
  Held-swap [] post v v' f (inr h) = inr h
  Held-swap (x ∷ pre) post v v' f (inl h) = inl h
  Held-swap (x ∷ pre) post v v' f (inr h) = inr (Held-swap pre post v v' f h)

  -- And it may move to the tail.
  Held-move :
      (pre post : List Block) (v v' : Block)
      → (Held a q bytes (v ∷ []) → Held a q bytes (v' ∷ []))
      → Held a q bytes (pre ++ (v ∷ post))
      → Held a q bytes (pre ++ (post ++ (v' ∷ [])))
  Held-move [] post v v' f (inl h) = Held-right post (v' ∷ []) (f (inl h))
  Held-move [] post v v' f (inr h) = Held-left post (v' ∷ []) h
  Held-move (x ∷ pre) post v v' f (inl h) = inl h
  Held-move (x ∷ pre) post v v' f (inr h) = inr (Held-move pre post v v' f h)

  -- Nothing is held by an unpinned block.
  unpinned-not-Held :
      (v v' : Block) → is_unpinned v ≡ true → Held a q bytes (v ∷ []) → Held a q bytes (v' ∷ [])
  unpinned-not-Held v v' u (inl h) = absurd (omega (arith, ==→eq v.pins 0 u, h.3))
  unpinned-not-Held v v' u (inr h) = absurd h

  module _ (S : Storage) where
    open S use {Disk, fetch, store}

    abbrev HeldAfter : Result ℕ × Cache Disk → Type 0
    HeldAfter r = Held a q bytes r.1.blocks

    link_tail-Held :
        (n : ℕ) (c : Cache Disk) (r : Result (Unit {0}) × Block)
        → Held a q bytes c.blocks
        → HeldAfter (link_tail S n c r)
    unfolding link_tail
    link_tail-Held n c (ok x, b) h = Held-left c.blocks (record b { pins = 1 } ∷ []) h
    link_tail-Held n c (err x, b) h = h

    add_block-Held :
        (alloc : Option ℕ) (p : ℕ) (c : Cache Disk)
        → Held a q bytes c.blocks
        → HeldAfter (add_block S alloc p c)
    unfolding add_block
    add_block-Held none p c h = h
    add_block-Held (some n) p c h = link_tail-Held n c _ h

    refilled-Held :
        (c : Cache Disk) (pre post : List Block) (v : Block) (d : Disk)
        (r : Result (Unit {0}) × Block)
        → is_unpinned v ≡ true
        → Held a q bytes (pre ++ (v ∷ post))
        → HeldAfter (refilled S c pre post d r)
    unfolding refilled
    refilled-Held c pre post v d (ok x, b) u h =
        Held-move pre post v (record b { pins = 1 }) (unpinned-not-Held v (record b { pins = 1 }) u)
          h
    refilled-Held c pre post v d (err x, b) u h = Held-swap pre post v b (unpinned-not-Held v b u) h

    written_back-Held :
        (c : Cache Disk) (p : ℕ) (pre post : List Block) (v : Block) (r : Result ℕ × Disk)
        → c.blocks ≡ pre ++ (v ∷ post)
        → is_unpinned v ≡ true
        → Held a q bytes c.blocks
        → HeldAfter (written_back S c p pre v post r)
    unfolding written_back
    written_back-Held c p pre post v (ok x, d) e u h =
        refilled-Held c pre post v d (fetch_into S d (record v { dirty = false }) p) u (rw e at h)
    written_back-Held c p pre post v (err x, d) e u h = h

    replace-Held :
        (c : Cache Disk) (p : ℕ) (pre post : List Block) (v : Block)
        → c.blocks ≡ pre ++ (v ∷ post)
        → is_unpinned v ≡ true
        → Held a q bytes c.blocks
        → HeldAfter (replace S c p pre v post)
    unfolding replace
    replace-Held c p pre post v e u h = elim (Bool-cases v.dirty) [
      | inl t ↦ simp t (written_back-Held c p pre post v (store c.disk v.pos v.buf) e u h)
      | inr f ↦ simp f (refilled-Held c pre post v c.disk (fetch_into S c.disk v p) u (rw e at h))
    ]

    evict-Held :
        (c : Cache Disk) (p : ℕ) (s : Split)
        → split_first is_unpinned c.blocks ≡ s
        → Walk is_unpinned c.blocks s
        → Held a q bytes c.blocks
        → HeldAfter (evict S p c)
    unfolding evict
    evict-Held c p none e w h = rw (e, evict) h
    evict-Held c p (some (pre, v, post)) e w h =
        rw (e, evict) (replace-Held c p pre post v w.0 w.1 h)

    miss-Held :
        (alloc : Option ℕ) (p : ℕ) (c : Cache Disk)
        → Held a q bytes c.blocks
        → HeldAfter (miss S alloc p c)
    unfolding miss
    miss-Held alloc p c h = elim (Bool-cases (is_empty c.blocks || ltb c.count max_blocks)) [
      | inl t ↦ rw t (add_block-Held alloc p c h)
      | inr f ↦ rw f (evict-Held c p _ refl (split_first-Walk is_unpinned c.blocks) h)
    ]

    get_block_aligned-Held :
        (alloc : Option ℕ) (p : ℕ) (c : Cache Disk) (s : Split)
        → (p % block_size == 0) ≡ true
        → split_first (at_pos p) c.blocks ≡ s
        → Walk (at_pos p) c.blocks s
        → Held a q bytes c.blocks
        → HeldAfter (get_block S alloc p c)
    unfolding get_block hit
    get_block_aligned-Held alloc p c none t e w h = rw (t, e) (miss-Held alloc p c h)
    get_block_aligned-Held alloc p c (some (pre, b, post)) t e w h =
        let b' : Block = record b { pins = b.pins + 1 } in
        rw (t, e) (Held-move pre post b b' more (rw w.0 at h))
      where
        more : Held a q bytes (b ∷ []) → Held a q bytes (record b { pins = b.pins + 1 } ∷ [])
        more (inl k) = inl (k.0, k.1, k.2, omega (arith, k.3))
        more (inr k) = inr k

    -- A pinned block keeps its address, its position and its bytes through every call of
    -- `cache_get_block`, whatever that asks for and whether or not it succeeds.
    pub get_block-Held :
        (alloc : Option ℕ) (p : ℕ) (c : Cache Disk)
        → Held a q bytes c.blocks
        → Held a q bytes (get_block S alloc p c).1.blocks
    unfolding get_block
    get_block-Held alloc p c h = elim (Bool-cases (p % block_size == 0)) [
      | inl t ↦
          unfold get_block in
          get_block_aligned-Held alloc p c _ t refl (split_first-Walk (at_pos p) c.blocks) h
      | inr f ↦ rw f h
    ]
