-- ===== src/Uart/Ring.antt =====
-- The ring buffer of src/modified/sys/dev/uart.c holds a queue of bytes, over the wrap-around of its
-- 32-bit counters.
use unix_like_operating_syst.Base.{
  ℕ, zero, suc, ◌+◌, ◌%◌, ◌^◌, ◌≡◌, ◌≢◌, ◌<◌, ◌≤◌, refl, sym, ap, ◌∙◌, List, [], ◌∷◌, ◌++◌, arith,
  ◌==◌, length, length-append, length-set, get_or, set, get_or-set_self, get_or-set_ne,
}
use unix_like_operating_syst.Uart.{RingBuf, rbuf_empty, rbuf_full, rbuf_putc, rbuf_getc}

-- So many bytes from a counter on.
abbrev pub view : ℕ → ℕ → List ℕ → List ℕ
view zero h d = []
view (suc n) h d = get_or d (h % 64) 0 ∷ view n (h + 1) d

length-view : (n h : ℕ) (d : List ℕ) → length (view n h d) ≡ n
length-view zero h d = refl
length-view (suc n) h d = ap suc (length-view n (h + 1) d)

-- Only the counter's place in the ring counts.
view-wrap : (n h k : ℕ) (d : List ℕ) → h % 64 ≡ k % 64 → view n h d ≡ view n k d
view-wrap zero h k d e = refl
view-wrap (suc n) h k d e =
    ap (λ (i : ℕ). get_or d i 0 ∷ view n (h + 1) d) e
    ∙ ap (λ t. get_or d (k % 64) 0 ∷ t) (view-wrap n (h + 1) (k + 1) d (omega (arith, e)))

view-suc :
    (n h : ℕ) (d : List ℕ) → view (suc n) h d ≡ view n h d ++ (get_or d ((h + n) % 64) 0 ∷ [])
view-suc zero h d = ap (λ (k : ℕ). get_or d (k % 64) 0 ∷ []) {x = h} {y = h + 0} (omega arith)
view-suc (suc n) h d =
    ap (λ t. get_or d (h % 64) 0 ∷ t)
      (view-suc n (h + 1) d
        ∙ ap (λ (k : ℕ). view n (h + 1) d ++ (get_or d (k % 64) 0 ∷ [])) {x = h + 1 + n}
            {y = h + suc n} (omega arith))

-- A byte put behind the view does not change it.
view-set :
    (n m h c : ℕ) (d : List ℕ) → n ≤ m → m < 64 → view n h (set d ((h + m) % 64) c) ≡ view n h d
view-set zero m h c d le lt = refl
view-set (suc n) zero h c d le lt = absurd (omega arith)
view-set (suc n) (suc m) h c d le lt =
    let away : (h + suc m) % 64 ≢ h % 64 = omega (arith, lt) in
    ap (λ (b : ℕ). b ∷ view n (h + 1) (set d ((h + suc m) % 64) c))
      (get_or-set_ne d ((h + suc m) % 64) (h % 64) c 0 away)
    ∙ ap (λ t. get_or d (h % 64) 0 ∷ t)
        (ap (λ (k : ℕ). view n (h + 1) (set d (k % 64) c)) {x = h + suc m} {y = h + 1 + m}
            (omega arith)
          ∙ view-set n m (h + 1) c d (omega arith) (omega arith))

-- The ring holds this queue.
pub record Holds (r : RingBuf) (q : List ℕ) : Type 0 where
  pub size : length r.buf ≡ 64
  pub head : r.hpos < 2 ^ 32
  pub fits : length q ≤ 64
  pub tail : r.tpos ≡ (r.hpos + length q) % 2 ^ 32
  pub bytes : view (length q) r.hpos r.buf ≡ q

pub rbuf_empty-Holds : (r : RingBuf) (q : List ℕ) → Holds r q → rbuf_empty r ≡ (length q == 0)
unfolding rbuf_empty
rbuf_empty-Holds r q h = ground (arith, h.tail, h.head, h.fits)

pub rbuf_full-Holds : (r : RingBuf) (q : List ℕ) → Holds r q → rbuf_full r ≡ (length q == 64)
unfolding rbuf_full
rbuf_full-Holds r q h = ground (arith, h.tail, h.head, h.fits)

pub rbuf_putc-Holds :
    (r : RingBuf) (q : List ℕ) (c : ℕ)
    → Holds r q
    → length q < 64
    → Holds (rbuf_putc r c) (q ++ (c ∷ []))
unfolding rbuf_putc
rbuf_putc-Holds r q c h lt =
    let n = length q in
    let len : length (q ++ (c ∷ [])) ≡ suc n = length-append q (c ∷ []) ∙ omega arith in
    let place : r.tpos % 64 ≡ (r.hpos + n) % 64 = omega (arith, h.tail) in
    let d : List ℕ = set r.buf (r.tpos % 64) c in
    record {
      size = length-set r.buf (r.tpos % 64) c ∙ h.size;
      head = h.head;
      fits = omega (arith, len, lt);
      tail = omega (arith, h.tail, len);
      bytes =
          ap (λ (k : ℕ). view k r.hpos d) len
          ∙ view-suc n r.hpos d
          ∙ ap (λ t. t ++ (get_or d ((r.hpos + n) % 64) 0 ∷ []))
              (ap (λ (k : ℕ). view n r.hpos (set r.buf k c)) place
                ∙ view-set n n r.hpos c r.buf (omega arith) lt
                ∙ h.bytes)
          ∙ ap (λ (b : ℕ). q ++ (b ∷ []))
              (ap (λ (k : ℕ). get_or d k 0) (sym place)
                ∙ get_or-set_self r.buf (r.tpos % 64) c 0 (omega (arith, h.size)));
    }

pub rbuf_getc-Holds :
    (r : RingBuf) (c : ℕ) (q : List ℕ)
    → Holds r (c ∷ q)
    → let (b, r') = rbuf_getc r in (b ≡ c) × Holds r' q
unfolding rbuf_getc
rbuf_getc-Holds r c q h =
    let (first, rest) = (cons_inj h.bytes) in
    (
      first,
      record {
        size = h.size;
        head = omega arith;
        fits = omega (arith, h.fits);
        tail = omega (arith, h.tail);
        bytes =
            view-wrap (length q) ((r.hpos + 1) % 2 ^ 32) (r.hpos + 1) r.buf (omega arith) ∙ rest;
      },
    )
  where
    cons_inj : {a b : ℕ} {xs ys : List ℕ} → (a ∷ xs) ≡ (b ∷ ys) → (a ≡ b) × (xs ≡ ys)
    cons_inj e = (cc e, cc e)
