-- ===== src/Uart.antt =====
-- The serial ports of src/modified/sys/dev/uart.c: the two ring buffers, the interrupt handler, and
-- receiving and sending.
--
-- The device's registers are what an interrupt finds: the overrun bit, the bytes in the receiver,
-- and how many bytes the transmitter takes. A call waits for interrupts, which are an argument; the
-- calls hold the port's lock with interrupts off but while they wait.
pub mod Ring
pub mod Service
pub mod Stream
mod Tests
use unix_like_operating_syst.Base.{
  ℕ, zero, suc, ◌+◌, ◌-◌, ◌%◌, ◌^◌, Bool, true, false, not, List, [], ◌∷◌, ◌++◌, ltb, leb, ◌==◌,
  if◌then◌else◌, length, get_or, set, replicate,
}
use unix_like_operating_syst.Base.Results.{Result, ok, err, ebusy, einval}

-- `UART_RBUFSZ`
abbrev pub rbuf_size : ℕ
rbuf_size = 64

-- `struct ringbuf`
pub record RingBuf : Type 0 where
  pub hpos : ℕ
  pub tpos : ℕ
  pub buf : List ℕ

pub rbuf_init : RingBuf → RingBuf
rbuf_init r = record r { hpos = 0; tpos = 0 }

pub rbuf_empty : RingBuf → Bool
rbuf_empty r = r.hpos == r.tpos

-- The difference is taken on `unsigned int`.
pub rbuf_full : RingBuf → Bool
rbuf_full r = (r.tpos + 2 ^ 32 - r.hpos) % 2 ^ 32 == rbuf_size

pub rbuf_putc : RingBuf → ℕ → RingBuf
rbuf_putc r c = record r { buf = set r.buf (r.tpos % rbuf_size) c; tpos = (r.tpos + 1) % 2 ^ 32 }

pub rbuf_getc : RingBuf → ℕ × RingBuf
rbuf_getc r = (get_or r.buf (r.hpos % rbuf_size) 0, record r { hpos = (r.hpos + 1) % 2 ^ 32 })

-- `struct uart_serial`, with the two enable bits of its register
pub record Uart : Type 0 where
  pub opened : Bool
  pub rxovrcnt : ℕ
  pub rxbuf : RingBuf
  pub txbuf : RingBuf
  pub drie : Bool
  pub threie : Bool

-- `uart_serial_open`
pub uart_serial_open : Uart → Result (Unit {0}) × Uart
uart_serial_open u = if u.opened then (err ebusy, u) else (
  ok tt,
  record u {
    rxbuf = rbuf_init u.rxbuf;
    txbuf = rbuf_init u.txbuf;
    drie = true;
    threie = false;
    opened = true;
  },
)

-- `uart_serial_close`
pub uart_serial_close : Uart → Uart
uart_serial_close u =
    if u.opened then record u { drie = false; threie = false; opened = false } else u

-- What an interrupt finds.
pub record Interrupt : Type 0 where
  pub overrun : Bool
  pub arrived : List ℕ
  pub room : ℕ

-- A loop that puts bytes into a ring until it is full: what is left, and the ring.
pub put_bytes : List ℕ → RingBuf → List ℕ × RingBuf
put_bytes [] r = ([], r)
put_bytes (c ∷ cs) r =
    let rest = put_bytes cs (rbuf_putc r c) in if rbuf_full r then (c ∷ cs, r) else rest

abbrev pub put_before : ℕ → List ℕ × RingBuf → List ℕ × RingBuf
put_before c (cs, r) = (c ∷ cs, r)

-- A loop that takes bytes out of a ring, so many at most: the bytes, and the ring.
pub take_bytes : ℕ → RingBuf → List ℕ × RingBuf
take_bytes zero r = ([], r)
take_bytes (suc n) r =
    let (c, r') = rbuf_getc r in
    let rest = take_bytes n r' in if rbuf_empty r then ([], r) else put_before c rest

-- `uart_isr`: what stays in the receiver, what the transmitter was given, and the port.
pub uart_isr : Interrupt → Uart → List ℕ × List ℕ × Uart
uart_isr i u =
    let (left, rx) = put_bytes i.arrived u.rxbuf in
    let (sent, tx) = take_bytes i.room u.txbuf in
    (
      left,
      sent,
      record u {
        rxovrcnt = if i.overrun then u.rxovrcnt + 1 else u.rxovrcnt;
        rxbuf = rx;
        txbuf = tx;
        drie = not (rbuf_full rx);
        threie = not (rbuf_empty tx);
      },
    )

-- How a call that waits for interrupts ends: with its bytes, or still waiting.
pub data Outcome : Type 0 where
  finished : List ℕ → Uart → Outcome
  waiting : List ℕ → Uart → Outcome

abbrev pub got : List ℕ → Outcome → Outcome
got bs (finished cs u) = finished (bs ++ cs) u
got bs (waiting cs u) = waiting (bs ++ cs) u

abbrev pub got_all : List ℕ → ℕ → Uart → Outcome → Outcome
got_all bytes n u later = if length bytes == n then finished bytes u else got bytes later

-- The loop of `uart_serial_recv`: it waits for the interrupts in order while bytes are missing.
pub recv_loop : List Interrupt → ℕ → Uart → Outcome
recv_loop [] n u =
    let (bytes, rx) = take_bytes n u.rxbuf in
    let u' = record u { rxbuf = rx } in got_all bytes n u' (waiting [] u')
recv_loop (i ∷ is) n u =
    let (bytes, rx) = take_bytes n u.rxbuf in
    let u' = record u { rxbuf = rx } in
    got_all bytes n u' (recv_loop is (n - length bytes) (uart_isr i u').2)

-- `uart_serial_recv` on a buffer that is not null
pub uart_serial_recv : List Interrupt → ℕ → Uart → Result Outcome
uart_serial_recv is bufsz u =
    if u.opened
    then if bufsz == 0
      then ok (finished [] u)
      else ok (recv_loop is bufsz (record u { drie = true }))
    else err einval

abbrev pub is_done : List ℕ → Bool
is_done [] = true
is_done (c ∷ cs) = false

-- What `uart_serial_send` puts into the ring, where bytes are left to send.
pub send_some : List ℕ → Uart → List ℕ × Uart
send_some bytes u =
    let (left, tx) = put_bytes bytes u.txbuf in
    (left, record u { txbuf = tx; threie = if rbuf_full u.txbuf then u.threie else true })

-- The loop of `uart_serial_send`: whether it came to its end within these interrupts, what the
-- transmitter was given meanwhile, and the port.
pub send_loop : List Interrupt → List ℕ → Uart → Bool × List ℕ × Uart
send_loop [] bytes u = let (left, u') = send_some bytes u in (is_done left, [], u')
send_loop (i ∷ is) bytes u =
    let (left, u1) = send_some bytes u in
    let (kept, sent, u2) = uart_isr i u1 in
    let (end, later, u3) = send_loop is left u2 in
    if is_done left then (true, [], u1) else (end, sent ++ later, u3)

-- `uart_serial_send` on a buffer that is not null
pub uart_serial_send : List Interrupt → List ℕ → Uart → Result (Bool × List ℕ × Uart)
uart_serial_send is bytes u =
    if u.opened
    then if is_done bytes then ok (true, [], u) else ok (send_loop is bytes u)
    else err einval
