-- ===== src/Cache/Coherent.antt =====
-- When a cache tells the truth about its device, and the steps that keep it so: moving a block,
-- linking a new one, dropping a clean one, writing one back.
use unix_like_operating_syst.Base.{
  ℕ, suc, ◌+◌, ◌≤◌, ◌<◌, ◌≡◌, refl, sym, ap, ◌∙◌, ◌≢◌, true, false, Option, none, some, List, [],
  ◌∷◌, ◌++◌, arith, ◌==◌, if◌then◌else◌, Bool-cases, inl, inr, All, length, length-append, eq→==,
  ==→eq, ==→ne, append_assoc,
}
use unix_like_operating_syst.Base.Results.{Result, ok}
use unix_like_operating_syst.Cache.{Storage, Block, Cache, max_blocks}
use unix_like_operating_syst.Cache.Find.{
  bytes_at, or_else, Distinct, bytes_at-append, bytes_at-move, bytes_at-replace, bytes_at-remove,
  Distinct-move, Distinct-snoc, Distinct-remove, Distinct-replace, All-middle, All-move, All-insert,
  bytes_at_member,
}

module _ (S : Storage) where
  open S use {Disk, fetch, store, capacity, store-whole, fetch-store, fetch-store_ne}

  -- What the device holds at a position.
  abbrev pub content : Disk → ℕ → Result (List ℕ)
  content d q = fetch d q []

  pub content-store :
      (d : Disk) (p : ℕ) (b : List ℕ) {n : ℕ}
      → p + 512 ≤ capacity
      → (store d p b).0 ≡ ok n
      → content (store d p b).1 p ≡ ok b
  content-store d p b {n} inside e =
      fetch-store d p b [] inside (e ∙ ap ok (store-whole d p n b inside e))

  abbrev pub or_fetch : Disk → ℕ → Option (List ℕ) → Result (List ℕ)
  or_fetch d q none = content d q
  or_fetch d q (some bytes) = ok bytes

  -- What a client reads at a position: the cached bytes, or else the device's.
  abbrev pub view : Cache Disk → ℕ → Result (List ℕ)
  view c q = or_fetch c.disk q (bytes_at q c.blocks)

  -- A block is within the capacity, and holds what the device holds if it is not dirty.
  abbrev pub AgreesWith : Disk → Block → Type 0
  AgreesWith d b = (b.pos + 512 ≤ capacity) × (b.dirty ≡ false → content d b.pos ≡ ok b.buf)

  pub record IsCoherent (c : Cache Disk) : Type 0 where
    pub distinct : Distinct c.blocks
    pub clean : All (AgreesWith c.disk) c.blocks
    pub counted : c.count ≡ length c.blocks
    pub bounded : c.count ≤ max_blocks

  -- One cache keeps the promises of another.
  abbrev pub Keeps : Cache Disk → Cache Disk → Type 0
  Keeps c c' = IsCoherent c' × ((q : ℕ) → view c' q ≡ view c q)

  pub length-middle :
      (pre post : List Block) (v : Block) → length (pre ++ (v ∷ post)) ≡ suc (length (pre ++ post))
  length-middle [] post v = refl
  length-middle (x ∷ pre) post v = ap suc (length-middle pre post v)

  pub length-move :
      (pre post : List Block) (v : Block)
      → length (pre ++ (post ++ (v ∷ []))) ≡ suc (length (pre ++ post))
  length-move pre post v = rw (← append_assoc) (omega (arith, length-append (pre ++ post) (v ∷ [])))

  -- A block moves to the tail, with other pins.
  pub move-Keeps :
      (c : Cache Disk) (pre post : List Block) (b b' : Block)
      → IsCoherent c
      → c.blocks ≡ pre ++ (b ∷ post)
      → b'.pos ≡ b.pos
      → b'.buf ≡ b.buf
      → b'.dirty ≡ b.dirty
      → Keeps c (record c { blocks = pre ++ (post ++ (b' ∷ [])) })
  move-Keeps c pre post b b' h e ep eb ed =
      let d : Distinct (pre ++ (b ∷ post)) = rw e at h.distinct in
      let a : All (AgreesWith c.disk) (pre ++ (b ∷ post)) = rw e at h.clean in
      let (rest, one) = All-middle (AgreesWith c.disk) pre post b a in
      (
        record {
          distinct = Distinct-move pre post b b' d ep eb;
          clean =
              All-move (AgreesWith c.disk) pre post b' rest
                (rw ep one.0, λ t. rw (ep, eb) (one.1 (sym ed ∙ t)));
          counted = omega (
            arith,
            h.counted,
            ap (λ l. length l) e,
            length-middle pre post b,
            length-move pre post b',
          );
          bounded = h.bounded;
        },
        λ q.
            ap (or_fetch c.disk q)
              (bytes_at-move q pre post b b' d ep eb ∙ ap (bytes_at q) (sym e)),
      )

  -- The same in place: the pins of a block say nothing to a reader.
  pub replace-Keeps :
      (c : Cache Disk) (pre post : List Block) (b b' : Block)
      → IsCoherent c
      → c.blocks ≡ pre ++ (b ∷ post)
      → b'.pos ≡ b.pos
      → b'.buf ≡ b.buf
      → AgreesWith c.disk b'
      → Keeps c (record c { blocks = pre ++ (b' ∷ post) })
  replace-Keeps c pre post b b' h e ep eb agrees =
      let d : Distinct (pre ++ (b ∷ post)) = rw e at h.distinct in
      let a : All (AgreesWith c.disk) (pre ++ (b ∷ post)) = rw e at h.clean in
      (
        record {
          distinct = Distinct-replace pre post b b' d ep eb;
          clean =
              All-insert (AgreesWith c.disk) pre post b'
                (All-middle (AgreesWith c.disk) pre post b a).0 agrees;
          counted = omega (
            arith,
            h.counted,
            ap (λ l. length l) e,
            length-middle pre post b,
            length-middle pre post b',
          );
          bounded = h.bounded;
        },
        λ q.
            ap (or_fetch c.disk q)
              (bytes_at-replace q pre post b b' ep eb ∙ ap (bytes_at q) (sym e)),
      )

  -- A block just read from the device is linked at the tail.
  pub add-Keeps :
      (c : Cache Disk) (b : Block)
      → IsCoherent c
      → bytes_at b.pos c.blocks ≡ none
      → b.pos + 512 ≤ capacity
      → content c.disk b.pos ≡ ok b.buf
      → c.count < max_blocks
      → Keeps c (record c { blocks = c.blocks ++ (b ∷ []); count = c.count + 1 })
  add-Keeps c b h absent inside read room = (
    record {
      distinct = Distinct-snoc c.blocks b h.distinct absent;
      clean = All-move (AgreesWith c.disk) [] c.blocks b h.clean (inside, λ t. read);
      counted = omega (arith, h.counted, length-append c.blocks (b ∷ []));
      bounded = omega (arith, room);
    },
    λ q. rw (bytes_at-append q c.blocks (b ∷ [])) (same q),
  )
    where
      same :
          (q : ℕ)
          → or_fetch c.disk q
              (or_else (bytes_at q c.blocks) (if b.pos == q then some b.buf else none))
            ≡ or_fetch c.disk q (bytes_at q c.blocks)
      same q = elim (Bool-cases (b.pos == q)) [
        | inl t ↦
            let e : b.pos ≡ q = ==→eq b.pos q t in
            let gone : bytes_at q c.blocks ≡ none =
              ap (λ (n : ℕ). bytes_at n c.blocks) (sym e) ∙ absent in
            rw (t, gone) (sym read ∙ ap (content c.disk) e)
        | inr f ↦ rw f (ap (or_fetch c.disk q) (or_else-none (bytes_at q c.blocks)))
      ]
        where
          or_else-none : (o : Option (List ℕ)) → or_else o none ≡ o
          or_else-none none = refl
          or_else-none (some x) = refl

  -- A clean block may be dropped.
  pub drop-Keeps :
      (c : Cache Disk) (n : ℕ) (pre post : List Block) (v : Block)
      → IsCoherent c
      → c.blocks ≡ pre ++ (v ∷ post)
      → v.dirty ≡ false
      → c.count ≡ n + 1
      → Keeps c (record c { blocks = pre ++ post; count = n })
  drop-Keeps c n pre post v h e cl en =
      let d : Distinct (pre ++ (v ∷ post)) = rw e at h.distinct in
      let a : All (AgreesWith c.disk) (pre ++ (v ∷ post)) = rw e at h.clean in
      let (rest, one) = All-middle (AgreesWith c.disk) pre post v a in
      (
        record {
          distinct = Distinct-remove pre post v d;
          clean = rest;
          counted = omega (arith, h.counted, ap (λ l. length l) e, length-middle pre post v);
          bounded = omega (arith, h.bounded);
        },
        λ q. rw (bytes_at-remove q pre post v d, e) (same q d one),
      )
    where
      same :
          (q : ℕ)
          → Distinct (pre ++ (v ∷ post))
          → AgreesWith c.disk v
          → or_fetch c.disk q (if v.pos == q then none else bytes_at q (pre ++ (v ∷ post)))
            ≡ or_fetch c.disk q (bytes_at q (pre ++ (v ∷ post)))
      same q d one = elim (Bool-cases (v.pos == q)) [
        | inl t ↦
            let p : v.pos ≡ q = ==→eq v.pos q t in
            let found : bytes_at q (pre ++ (v ∷ post)) ≡ some v.buf =
              ap (λ (n : ℕ). bytes_at n (pre ++ (v ∷ post))) (sym p)
              ∙ bytes_at_member pre post v d in
            rw (t, found) (ap (content c.disk) (sym p) ∙ one.1 cl)
        | inr f ↦ rw f
      ]

  -- A store leaves the blocks of other positions in agreement with the device.
  pub AgreesWith-store :
      (d : Disk) (p : ℕ) (bytes : List ℕ) (bs : List Block)
      → bytes_at p bs ≡ none
      → All (AgreesWith d) bs
      → All (AgreesWith (store d p bytes).1) bs
  AgreesWith-store d p bytes [] h a = tt
  AgreesWith-store d p bytes (b ∷ bs) h a = elim (Bool-cases (b.pos == p)) [
    | inl t ↦ cc (rw t at h)
    | inr f ↦ (
      (a.0.0, λ cl. fetch-store_ne d p b.pos bytes [] (==→ne b.pos p f) ∙ a.0.1 cl),
      AgreesWith-store d p bytes bs (rw f at h) a.1,
    )
  ]

  view-store :
      (d : Disk) (q : ℕ) (pre post : List Block) (v : Block)
      → Distinct (pre ++ (v ∷ post))
      → or_fetch (store d v.pos v.buf).1 q (bytes_at q (pre ++ (v ∷ post)))
        ≡ or_fetch d q (bytes_at q (pre ++ (v ∷ post)))
  view-store d q pre post v dis = elim (Bool-cases (q == v.pos)) [
    | inl t ↦ let p : q ≡ v.pos = ==→eq q v.pos t in rw (p, bytes_at_member pre post v dis)
    | inr f ↦ other (bytes_at q (pre ++ (v ∷ post))) (==→ne q v.pos f)
  ]
    where
      other :
          (o : Option (List ℕ)) → q ≢ v.pos → or_fetch (store d v.pos v.buf).1 q o ≡ or_fetch d q o
      other none ne = fetch-store_ne d v.pos q v.buf [] ne
      other (some x) ne = refl

  module _ (c : Cache Disk) (pre post : List Block) (v : Block) (h : IsCoherent c)
      (e : c.blocks ≡ pre ++ (v ∷ post)) where
    Distinct-here : Distinct (pre ++ (v ∷ post))
    Distinct-here = rw e at h.distinct

    agree_here : All (AgreesWith c.disk) (pre ++ (v ∷ post))
    agree_here = rw e at h.clean

    inside : v.pos + 512 ≤ capacity
    inside = (All-middle (AgreesWith c.disk) pre post v agree_here).1.0

    others_agree : All (AgreesWith (store c.disk v.pos v.buf).1) (pre ++ post)
    others_agree =
        AgreesWith-store c.disk v.pos v.buf (pre ++ post)
          (rw (bytes_at-remove v.pos pre post v Distinct-here, eq→== v.pos v.pos refl))
          (All-middle (AgreesWith c.disk) pre post v agree_here).0

    -- A block is written back, and marked clean.
    pub store-Keeps :
        {n : ℕ}
        → (store c.disk v.pos v.buf).0 ≡ ok n
        → Keeps c (record c {
          disk = (store c.disk v.pos v.buf).1;
          blocks = pre ++ (record v { dirty = false } ∷ post);
        })
    store-Keeps stored =
        let v' : Block = record v { dirty = false } in
        (
          record {
            distinct = Distinct-replace pre post v v' Distinct-here refl refl;
            clean =
                All-insert (AgreesWith (store c.disk v.pos v.buf).1) pre post v' others_agree
                  (inside, λ t. content-store c.disk v.pos v.buf inside stored);
            counted = omega (
              arith,
              h.counted,
              ap (λ l. length l) e,
              length-middle pre post v,
              length-middle pre post v',
            );
            bounded = h.bounded;
          },
          λ q.
              rw (bytes_at-replace q pre post v v' refl refl, e)
                (view-store c.disk q pre post v Distinct-here),
        )

    -- A store of a dirty block that fails leaves it dirty, so nothing is lost.
    pub store_failed-Keeps :
        v.dirty ≡ true → Keeps c (record c { disk = (store c.disk v.pos v.buf).1 })
    store_failed-Keeps dirty = (
      record {
        distinct = h.distinct;
        clean = rw e (
            All-insert (AgreesWith (store c.disk v.pos v.buf).1) pre post v others_agree
              (inside, λ t. cc (sym dirty ∙ t)));
        counted = h.counted;
        bounded = h.bounded;
      },
      λ q. rw e (view-store c.disk q pre post v Distinct-here),
    )
