-- ===== src/Uart/Service.antt =====
-- The interrupt handler of src/modified/sys/dev/uart.c on the queues that the rings hold.
use unix_like_operating_syst.Base.{
  ℕ, zero, suc, ◌-◌, ◌≡◌, ◌<◌, refl, sym, ap, ◌∙◌, inl, inr, true, false, not, List, [], ◌∷◌, ◌++◌,
  append-nil, append_assoc, arith, ◌==◌, Bool-cases, ==→eq, ==→ne, ne→==, length, length-append,
  take, drop,
}
use mathlib.Core.Path.{subst, ap₂}
use unix_like_operating_syst.Uart.{
  RingBuf, rbuf_empty, rbuf_full, rbuf_putc, rbuf_getc, Uart, Interrupt, put_bytes, put_before,
  take_bytes, uart_isr,
}
use unix_like_operating_syst.Uart.Ring.{
  Holds, rbuf_empty-Holds, rbuf_full-Holds, rbuf_putc-Holds, rbuf_getc-Holds,
}

-- What a loop leaves: the bytes that it did not move, or moved, and the queue of its ring.
abbrev pub Moves : List ℕ → List ℕ → List ℕ × RingBuf → Type 0
Moves bytes q (bs, r) = (bs ≡ bytes) × Holds r q

take-drop_none : (cs : List ℕ) (n : ℕ) → n ≡ 0 → (drop n cs ≡ cs) × (take n cs ≡ [])
take-drop_none cs zero e = (refl, refl)
take-drop_none cs (suc n) e = absurd (omega (arith, e))

pub put_bytes-Moves :
    (cs : List ℕ) (r : RingBuf) (q : List ℕ)
    → Holds r q
    → Moves (drop (64 - length q) cs) (q ++ take (64 - length q) cs) (put_bytes cs r)
unfolding put_bytes
put_bytes-Moves [] r q h = (
  nothing (64 - length q),
  subst (Holds r) (sym (append-nil q) ∙ ap (λ t. q ++ t) (nothing_taken (64 - length q))) h,
)
  where
    nothing : (n : ℕ) → [] ≡ drop {A = ℕ} n []
    nothing zero = refl
    nothing (suc n) = refl

    nothing_taken : (n : ℕ) → [] ≡ take {A = ℕ} n []
    nothing_taken zero = refl
    nothing_taken (suc n) = refl
put_bytes-Moves (c ∷ cs) r q h = elim (Bool-cases (length q == 64)) [
  | inl y ↦
      let full : rbuf_full r ≡ true = rbuf_full-Holds r q h ∙ y in
      let (d, t) = take-drop_none (c ∷ cs) (64 - length q) (omega (arith, ==→eq (length q) 64 y)) in
      rw full (sym d, subst (Holds r) (sym (append-nil q) ∙ ap (λ t. q ++ t) (sym t)) h)
  | inr n ↦
      let open_ : rbuf_full r ≡ false = rbuf_full-Holds r q h ∙ n in
      let lt : length q < 64 = omega (arith, ==→ne (length q) 64 n, h.fits) in
      let k = 64 - suc (length q) in
      let one : 64 - length q ≡ suc k = omega (arith, lt) in
      let len : 64 - length (q ++ (c ∷ [])) ≡ k = omega (arith, length-append q (c ∷ []), lt) in
      let (d, h') =
        put_bytes-Moves cs (rbuf_putc r c) (q ++ (c ∷ [])) (rbuf_putc-Holds r q c h lt) in
      rw open_ (
        d ∙ ap (λ (j : ℕ). drop j cs) len ∙ ap (λ (j : ℕ). drop j (c ∷ cs)) (sym one),
        subst (Holds (put_bytes cs (rbuf_putc r c)).1)
            (ap (λ (j : ℕ). (q ++ (c ∷ [])) ++ take j cs) len
              ∙ append_assoc q (c ∷ []) (take k cs)
              ∙ ap (λ (j : ℕ). q ++ take j (c ∷ cs)) (sym one))
            h',
      )
]

put_before-Moves :
    (c b : ℕ) (bytes q : List ℕ) (m : List ℕ × RingBuf)
    → b ≡ c
    → Moves bytes q m
    → Moves (c ∷ bytes) q (put_before b m)
put_before-Moves c b bytes q (bs, r) e (eb, h) = (ap₂ (λ (x : ℕ) (t : List ℕ). x ∷ t) e eb, h)

pub take_bytes-Moves :
    (n : ℕ) (r : RingBuf) (q : List ℕ) → Holds r q → Moves (take n q) (drop n q) (take_bytes n r)
unfolding take_bytes
take_bytes-Moves zero r q h = (refl, h)
take_bytes-Moves (suc n) r [] h =
    let empty : rbuf_empty r ≡ true = rbuf_empty-Holds r [] h in rw empty (refl, h)
take_bytes-Moves (suc n) r (c ∷ q) h =
    let some_left : rbuf_empty r ≡ false =
      rbuf_empty-Holds r (c ∷ q) h ∙ ne→== (suc (length q)) 0 (omega arith) in
    let (e, h') = rbuf_getc-Holds r c q h in
    rw some_left (
      put_before-Moves c (rbuf_getc r).0 (take n q) (drop n q) (take_bytes n (rbuf_getc r).1) e
        (take_bytes-Moves n (rbuf_getc r).1 q h'))

-- Where the rings hold a queue each, `uart_isr` moves bytes from the receiver behind the one, in
-- order, until 64 are there, leaves the others in the receiver, and gives the transmitter as many
-- bytes from the head of the other as it takes or as are there; it enables the receiver's interrupt
-- just if there is room left, and the transmitter's just if bytes are left.
pub uart_isr-Holds :
    (i : Interrupt) (u : Uart) (q p : List ℕ)
    → Holds u.rxbuf q
    → Holds u.txbuf p
    → let (left, sent, u') = uart_isr i u in
      let q' = q ++ take (64 - length q) i.arrived in
      let p' = drop i.room p in
      (left ≡ drop (64 - length q) i.arrived)
      × (sent ≡ take i.room p)
      × Holds u'.rxbuf q'
      × Holds u'.txbuf p'
      × (u'.drie ≡ not (length q' == 64))
      × (u'.threie ≡ not (length p' == 0))
unfolding uart_isr
uart_isr-Holds i u q p hq hp =
    let (l, hq') = put_bytes-Moves i.arrived u.rxbuf q hq in
    let (s, hp') = take_bytes-Moves i.room u.txbuf p hp in
    (
      l,
      s,
      hq',
      hp',
      ap not (
          rbuf_full-Holds (put_bytes i.arrived u.rxbuf).1 (q ++ take (64 - length q) i.arrived)
            hq'),
      ap not (rbuf_empty-Holds (take_bytes i.room u.txbuf).1 (drop i.room p) hp'),
    )
