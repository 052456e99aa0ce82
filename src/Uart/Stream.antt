-- ===== src/Uart/Stream.antt =====
-- Sending and receiving in src/modified/sys/dev/uart.c over any interrupts.
use unix_like_operating_syst.Base.{
  ℕ, ◌-◌, ◌≡◌, min, refl, sym, ap, ◌∙◌, inl, inr, Bool, true, false, List, [], ◌∷◌, ◌++◌,
  append-nil, append_assoc, arith, leb, if◌then◌else◌, Bool-cases, eq→==, ne→==, length,
  length-take, take, drop, take-append-drop, take_all, drop_all,
}
use mathlib.Core.Path.{subst, ap₂}
use native.Mathlib.Decide.{dec_le}
use unix_like_operating_syst.Uart.{
  Uart, Interrupt, put_bytes, take_bytes, uart_isr, Outcome, finished, waiting, got, recv_loop,
  is_done, send_some, send_loop,
}
use unix_like_operating_syst.Uart.Ring.{Holds}
use unix_like_operating_syst.Uart.Service.{put_bytes-Moves, take_bytes-Moves, uart_isr-Holds}

-- The two rings hold these queues.
abbrev pub Queues : Uart → List ℕ → List ℕ → Type 0
Queues u q p = Holds u.rxbuf q × Holds u.txbuf p

-- What was queued and what was to be sent has gone to the transmitter, in order, or is in the queue,
-- or is left; at the end of the call nothing is left.
abbrev pub Sends : List ℕ → Bool × List ℕ × Uart → Type 0
Sends bytes (end, sent, u) =
    (q : List ℕ) × (p : List ℕ) × (left : List ℕ) × Queues u q p
    × (bytes ≡ sent ++ (p ++ left))
    × (end ≡ is_done left)

put_and_left :
    (p bytes : List ℕ)
    → p ++ bytes ≡ (p ++ take (64 - length p) bytes) ++ drop (64 - length p) bytes
put_and_left p bytes =
    ap (λ t. p ++ t) (sym (take-append-drop (64 - length p) bytes))
    ∙ sym (append_assoc p (take (64 - length p) bytes) (drop (64 - length p) bytes))

send_loop-last :
    (bytes q p : List ℕ) (u : Uart) → Queues u q p → Sends (p ++ bytes) (send_loop [] bytes u)
unfolding send_loop send_some
send_loop-last bytes q p u (hq, hp) =
    let (l, h) = put_bytes-Moves bytes u.txbuf p hp in
    (
      q,
      p ++ take (64 - length p) bytes,
      (put_bytes bytes u.txbuf).0,
      (hq, h),
      put_and_left p bytes ∙ ap (λ t. (p ++ take (64 - length p) bytes) ++ t) (sym l),
      refl,
    )

is_done-nil : (xs : List ℕ) → is_done xs ≡ true → xs ≡ []
is_done-nil [] e = refl
is_done-nil (x ∷ xs) e = cc e

-- From any queues in the two rings, `uart_serial_send` waiting for any interrupts: what the
-- transmitter is given, then what the ring holds, then what is not yet taken, is what the ring held
-- and then the caller's bytes, in order; and the call ends just if all of them are taken.
pub send_loop-Sends :
    (is : List Interrupt) (bytes q p : List ℕ) (u : Uart)
    → Queues u q p
    → Sends (p ++ bytes) (send_loop is bytes u)
unfolding send_loop send_some
send_loop-Sends [] bytes q p u h = send_loop-last bytes q p u h
send_loop-Sends (i ∷ is) bytes q p u (hq, hp) =
    let (l, h) = put_bytes-Moves bytes u.txbuf p hp in
    let p1 = p ++ take (64 - length p) bytes in
    let left = (put_bytes bytes u.txbuf).0 in
    let u1 : Uart = (send_some bytes u).1 in
    let all : p ++ bytes ≡ p1 ++ left = put_and_left p bytes ∙ ap (λ t. p1 ++ t) (sym l) in
    elim (Bool-cases (is_done left)) [
      | inl y ↦ rw y (q, p1, [], (hq, h), all ∙ ap (λ t. p1 ++ t) (is_done-nil left y), refl)
      | inr n ↦
          let (a, s, h1, h2, d, t) = uart_isr-Holds i u1 q p1 hq h in
          let (q', p', rest, hs, e, end) =
            send_loop-Sends is left (q ++ take (64 - length q) i.arrived) (drop i.room p1)
              (uart_isr i u1).2 (h1, h2) in
          let sent = (uart_isr i u1).1 in
          let later = (send_loop is left (uart_isr i u1).2).1 in
          rw n (
            q',
            p',
            rest,
            hs,
            all
                ∙ ap (λ t. t ++ left) (sym (take-append-drop i.room p1))
                ∙ append_assoc (take i.room p1) (drop i.room p1) left
                ∙ ap₂ (λ (x y : List ℕ). x ++ y) (sym s) e
                ∙ sym (append_assoc sent later (p' ++ rest)),
            end,
          )
    ]

-- Receiving from a queue: it is emptied while bytes are missing, and filled by the interrupts.
abbrev pub prepend : List ℕ → Bool × List ℕ × List ℕ → Bool × List ℕ × List ℕ
prepend bs (end, cs, q) = (end, bs ++ cs, q)

pub queue_recv : List Interrupt → ℕ → List ℕ → Bool × List ℕ × List ℕ
queue_recv [] n q = (leb n (length q), take n q, drop n q)
queue_recv (i ∷ is) n q =
    let later = prepend q (queue_recv is (n - length q) (take 64 i.arrived)) in
    if leb n (length q) then (true, take n q, drop n q) else later

-- A call on the ring ends as the one on the queue.
abbrev pub Receives : Bool × List ℕ × List ℕ → Outcome → Type 0
Receives (end, bytes, q) (finished cs u) = (end ≡ true) × (cs ≡ bytes) × Holds u.rxbuf q
Receives (end, bytes, q) (waiting cs u) = (end ≡ false) × (cs ≡ bytes) × Holds u.rxbuf q

got-Receives :
    (xs q : List ℕ) (r : Bool × List ℕ × List ℕ) (o : Outcome)
    → xs ≡ q
    → Receives r o
    → Receives (prepend q r) (got xs o)
got-Receives xs q (end, bytes, q') (finished cs u) e (a, b, h) =
    (a, ap₂ (λ (x y : List ℕ). x ++ y) e b, h)
got-Receives xs q (end, bytes, q') (waiting cs u) e (a, b, h) =
    (a, ap₂ (λ (x y : List ℕ). x ++ y) e b, h)

-- From any queues in the two rings, `uart_serial_recv` waiting for any interrupts gives the bytes
-- that receiving from the queue gives, ends just if that does, and leaves the same queue: bytes are
-- taken in the order in which they arrive, and it ends with as many as were asked for.
pub recv_loop-Receives :
    (is : List Interrupt) (n : ℕ) (q p : List ℕ) (u : Uart)
    → Queues u q p
    → Receives (queue_recv is n q) (recv_loop is n u)
unfolding recv_loop queue_recv
recv_loop-Receives [] n q p u (hq, hp) =
    let (b, h) = take_bytes-Moves n u.rxbuf q hq in
    let len : length (take_bytes n u.rxbuf).0 ≡ min n (length q) = ap length b ∙ length-take n q in
    elim (dec_le n (length q)) [
      | yes le ↦
          let t : leb n (length q) ≡ true = ground (arith, le) in
          rw t
            (rw (eq→== (length (take_bytes n u.rxbuf).0) n (omega (arith, len, le))) (refl, b, h))
      | no gt ↦
          let t : leb n (length q) ≡ false = ground (arith, gt) in
          rw t (
            rw (ne→== (length (take_bytes n u.rxbuf).0) n (omega (arith, len, gt)))
              (refl, append-nil (take_bytes n u.rxbuf).0 ∙ b, h))
    ]
recv_loop-Receives (i ∷ is) n q p u (hq, hp) =
    let (b, h) = take_bytes-Moves n u.rxbuf q hq in
    let bytes = (take_bytes n u.rxbuf).0 in
    let u1 : Uart = record u { rxbuf = (take_bytes n u.rxbuf).1 } in
    let len : length bytes ≡ min n (length q) = ap length b ∙ length-take n q in
    elim (dec_le n (length q)) [
      | yes le ↦
          let t : leb n (length q) ≡ true = ground (arith, le) in
          rw t (rw (eq→== (length bytes) n (omega (arith, len, le))) (refl, b, h))
      | no gt ↦
          let t : leb n (length q) ≡ false = ground (arith, gt) in
          let empty : Holds u1.rxbuf [] =
            subst (Holds u1.rxbuf) (drop_all n q (omega (arith, gt))) h in
          let (a, s, h1, h2, d, e) = uart_isr-Holds i u1 [] p empty hp in
          rw t (
            rw (ne→== (length bytes) n (omega (arith, len, gt))) (
              got-Receives bytes q (queue_recv is (n - length q) (take 64 i.arrived))
                (recv_loop is (n - length bytes) (uart_isr i u1).2)
                (b ∙ take_all n q (omega (arith, gt)))
                (subst
                  (λ (k : ℕ).
                    Receives (queue_recv is k (take 64 i.arrived))
                      (recv_loop is (n - length bytes) (uart_isr i u1).2))
                  {x = n - length bytes} {y = n - length q} (omega (arith, len, gt))
                  (recv_loop-Receives is (n - length bytes) (take 64 i.arrived) (drop i.room p)
                    (uart_isr i u1).2 (h1, h2)))))
    ]
