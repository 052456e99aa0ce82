-- ===== src/Cache/Flush.antt =====
-- `cache_flush` of src/modified/sys/cache.c brings the device up to date.
use mathlib.Core.Path.{subst}
use unix_like_operating_syst.Base.{
  ℕ, suc, ◌+◌, ◌≤◌, ◌≡◌, refl, sym, ap, ◌∙◌, true, false, none, some, Option, List, [], ◌∷◌, ◌==◌,
  Bool-cases, inl, inr, All, length, ==→eq, ==→ne, ◌≢◌,
}
use unix_like_operating_syst.Base.Results.{Result, ok, err, Succeeds}
use unix_like_operating_syst.Cache.{Storage, Block, Cache, flush_rest, flush_blocks, flush}
use unix_like_operating_syst.Cache.Find.{bytes_at, Distinct}
use unix_like_operating_syst.Cache.Coherent.{
  or_fetch, content, content-store, view, AgreesWith, AgreesWith-store, IsCoherent, Keeps,
}

abbrev IsClean : Block → Type 0
IsClean b = b.dirty ≡ false

module _ (S : Storage) where
  open S use {Disk, store, capacity, fetch-store_ne}

  -- What the loop has done when it stops, started at device state `d` and blocks `bs`.
  record Flushed (d : Disk) (bs : List Block) (r : Result (Unit {0}) × Disk × List Block)
      : Type 0 where
    same : (q : ℕ) → bytes_at q r.2 ≡ bytes_at q bs
    distinct : Distinct r.2
    agrees : All (AgreesWith S r.1) r.2
    size : length r.2 ≡ length bs
    others : (q : ℕ) → bytes_at q bs ≡ none → content S r.1 q ≡ content S d q
    all_clean : Succeeds r.0 → All IsClean r.2

  absent_head :
      (q : ℕ) (b : Block) (bs : List Block)
      → bytes_at q (b ∷ bs) ≡ none
      → (q ≢ b.pos) × (bytes_at q bs ≡ none)
  absent_head q b bs h = elim (Bool-cases (b.pos == q)) [
    | inl t ↦ cc (rw t at h)
    | inr f ↦ (λ e. ==→ne b.pos q f (sym e), rw f at h)
  ]

  -- One block, clean in the end, in front of a flushed rest.
  clean-Flushed :
      (d d1 : Disk) (b b' : Block) (bs : List Block) (r : Result (Unit {0}) × Disk × List Block)
      → Distinct (b ∷ bs)
      → b'.pos ≡ b.pos
      → b'.buf ≡ b.buf
      → b'.dirty ≡ false
      → b.pos + 512 ≤ capacity
      → content S d1 b.pos ≡ ok b.buf
      → ((q : ℕ) → q ≢ b.pos → content S d1 q ≡ content S d q)
      → Flushed d1 bs r
      → Flushed d (b ∷ bs) (r.0, r.1, b' ∷ r.2)
  clean-Flushed d d1 b b' bs r dis ep eb ed inside now rest f = record {
    same = λ q. rw (ep, eb, f.same q);
    distinct = (rw ep (f.same b.pos ∙ dis.0), f.distinct);
    agrees = ((rw ep inside, λ c. rw (ep, eb) (f.others b.pos dis.0 ∙ now)), f.agrees);
    size = ap suc f.size;
    others = λ q h. let (ne, absent) = absent_head q b bs h in f.others q absent ∙ rest q ne;
    all_clean = λ s. (ed, f.all_clean s);
  }

  flush_rest-Flushed :
      (d : Disk) (b : Block) (bs : List Block) (s : Result ℕ × Disk)
      → store d b.pos b.buf ≡ s
      → b.dirty ≡ true
      → Distinct (b ∷ bs)
      → b.pos + 512 ≤ capacity
      → All (AgreesWith S d) bs
      → ((d' : Disk) → All (AgreesWith S d') bs → Flushed d' bs (flush_blocks S d' bs))
      → Flushed d (b ∷ bs) (flush_rest S b bs (λ d'. flush_blocks S d' bs) s)
  unfolding flush_rest
  flush_rest-Flushed d b bs (ok x, d1) e dirty dis inside a ih =
      clean-Flushed d d1 b (record b { dirty = false }) bs (flush_blocks S d1 bs) dis refl refl refl
        inside
        (subst (λ (d' : Disk). content S d' b.pos ≡ ok b.buf) (ap (λ s. s.1) e)
          (content-store S d b.pos b.buf inside (ap (λ s. s.0) e)))
        (λ q ne.
          subst (λ (d' : Disk). content S d' q ≡ content S d q) (ap (λ s. s.1) e)
            (fetch-store_ne d b.pos q b.buf [] ne))
        (ih d1 (
          subst (λ (d' : Disk). All (AgreesWith S d') bs) (ap (λ s. s.1) e)
            (AgreesWith-store S d b.pos b.buf bs dis.0 a)))
  flush_rest-Flushed d b bs (err x, d1) e dirty dis inside a ih = record {
    same = λ q. refl;
    distinct = dis;
    agrees = (
      (inside, λ c. cc (sym dirty ∙ c)),
      subst (λ (d' : Disk). All (AgreesWith S d') bs) (ap (λ s. s.1) e)
          (AgreesWith-store S d b.pos b.buf bs dis.0 a),
    );
    size = refl;
    others = λ q h.
        subst (λ (d' : Disk). content S d' q ≡ content S d q) (ap (λ s. s.1) e)
          (fetch-store_ne d b.pos q b.buf [] (absent_head q b bs h).0);
    all_clean = λ s. absurd s;
  }

  flush_blocks-Flushed :
      (d : Disk) (bs : List Block)
      → Distinct bs
      → All (AgreesWith S d) bs
      → Flushed d bs (flush_blocks S d bs)
  unfolding flush_blocks
  flush_blocks-Flushed d [] dis a = record {
    same = λ q. refl;
    distinct = tt;
    agrees = tt;
    size = refl;
    others = λ q h. refl;
    all_clean = λ s. tt;
  }
  flush_blocks-Flushed d (b ∷ bs) dis a = elim (Bool-cases b.dirty) [
    | inl t ↦ simp t (
        flush_rest-Flushed d b bs (store d b.pos b.buf) refl t dis a.0.0 a.1
          (λ d' a'. flush_blocks-Flushed d' bs dis.1 a'))
    | inr f ↦ simp f (
        clean-Flushed d d b b bs (flush_blocks S d bs) dis refl refl f a.0.0 (a.0.1 f)
          (λ q ne. refl) (flush_blocks-Flushed d bs dis.1 a.1))
  ]

  fetched :
      (d : Disk) (q : ℕ) (bs : List Block)
      → All IsClean bs
      → All (AgreesWith S d) bs
      → content S d q ≡ or_fetch S d q (bytes_at q bs)
  fetched d q [] c a = refl
  fetched d q (b ∷ bs) c a = elim (Bool-cases (b.pos == q)) [
    | inl t ↦ rw t (ap (content S d) (sym (==→eq b.pos q t)) ∙ a.0.1 c.0)
    | inr f ↦ rw f (fetched d q bs c.1 a.1)
  ]

  flush_parts :
      (c : Cache Disk)
      → IsCoherent S c
      → Keeps S c (flush S c).1
        × (Succeeds (flush S c).0 → (q : ℕ) → content S (flush S c).1.disk q ≡ view S c q)
  unfolding flush
  flush_parts c h =
      let r : Result (Unit {0}) × Disk × List Block = flush_blocks S c.disk c.blocks in
      let f : Flushed c.disk c.blocks r = flush_blocks-Flushed c.disk c.blocks h.distinct h.clean in
      (
        (
          record {
            distinct = f.distinct;
            clean = f.agrees;
            counted = h.counted ∙ sym f.size;
            bounded = h.bounded;
          },
          kept r f,
        ),
        λ s q. fetched r.1 q r.2 (f.all_clean s) f.agrees ∙ kept r f q,
      )
    where
      same :
          (d' : Disk) (q : ℕ) (o : Option (List ℕ))
          → (o ≡ none → content S d' q ≡ content S c.disk q)
          → or_fetch S d' q o ≡ or_fetch S c.disk q o
      same d' q none k = k refl
      same d' q (some x) k = refl

      kept :
          (r : Result (Unit {0}) × Disk × List Block)
          → Flushed c.disk c.blocks r
          → (q : ℕ) → or_fetch S r.1 q (bytes_at q r.2) ≡ view S c q
      kept r f q = rw (f.same q) (same r.1 q (bytes_at q c.blocks) (f.others q))

  -- What a flush answers: nothing that is read changes, and a success means that all is stored.
  abbrev pub Flushes : Cache Disk → Result (Unit {0}) × Cache Disk → Type 0
  Flushes c (ok _, c') = Keeps S c c' × ((q : ℕ) → content S c'.disk q ≡ view S c q)
  Flushes c (err _, c') = Keeps S c c'

  as_Flushes :
      (c : Cache Disk) (r : Result (Unit {0}) × Cache Disk)
      → Keeps S c r.1 × (Succeeds r.0 → (q : ℕ) → content S r.1.disk q ≡ view S c q)
      → Flushes c r
  as_Flushes c (ok x, c') h = (h.0, h.1 tt)
  as_Flushes c (err e, c') h = h.0

  -- `cache_flush` on a coherent cache, all blocks of which are within the capacity of the device,
  -- leaves it coherent and changes what is read at no position, also when a store fails half way;
  -- when it succeeds, the device holds at every position what the cache gave for it before the call.
  pub flush-Flushes : (c : Cache Disk) → IsCoherent S c → Flushes c (flush S c)
  flush-Flushes c h = as_Flushes c (flush S c) (flush_parts c h)
