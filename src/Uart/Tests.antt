-- ===== src/Uart/Tests.antt =====
-- A port of src/modified/sys/dev/uart.c whose counters are about to wrap.
use unix_like_operating_syst.Base.{
  List, ℕ, ◌-◌, ◌^◌, ◌≡◌, refl, true, false, not, [], ◌∷◌, ◌++◌, arith, ◌==◌, length, replicate,
}
use unix_like_operating_syst.Uart.{RingBuf, Uart, Interrupt, uart_isr, send_loop, recv_loop}
use unix_like_operating_syst.Uart.Ring.{Holds}
use unix_like_operating_syst.Uart.Service.{uart_isr-Holds}
use unix_like_operating_syst.Uart.Stream.{
  Sends, send_loop-Sends, Receives, queue_recv, recv_loop-Receives,
}

-- The bytes 5 and 6 on the two sides of the wrap.
abbrev wrapped : RingBuf
wrapped = record { hpos = 2 ^ 32 - 1; tpos = 1; buf = 6 ∷ (replicate 62 0 ++ (5 ∷ [])) }

wrapped-Holds : Holds wrapped (5 ∷ 6 ∷ [])
wrapped-Holds = record {
  size = refl;
  head = omega arith;
  fits = omega arith;
  tail = refl;
  bytes = refl;
}

abbrev port : Uart
port = record {
  opened = true;
  rxovrcnt = 0;
  rxbuf = wrapped;
  txbuf = wrapped;
  drie = true;
  threie = true;
}

abbrev three_in : Interrupt
three_in = record { overrun = false; arrived = 7 ∷ 8 ∷ 9 ∷ []; room = 1 }

uart_isr-Holds_example :
    let (left, sent, u') = uart_isr three_in port in
    let q' : List ℕ = 5 ∷ 6 ∷ 7 ∷ 8 ∷ 9 ∷ [] in
    let p' : List ℕ = 6 ∷ [] in
    (left ≡ [])
    × (sent ≡ 5 ∷ [])
    × Holds u'.rxbuf q'
    × Holds u'.txbuf p'
    × (u'.drie ≡ not (length q' == 64))
    × (u'.threie ≡ not (length p' == 0))
uart_isr-Holds_example =
    uart_isr-Holds three_in port (5 ∷ 6 ∷ []) (5 ∷ 6 ∷ []) wrapped-Holds wrapped-Holds

send_loop-Sends_example :
    Sends ((5 ∷ 6 ∷ []) ++ (1 ∷ 2 ∷ [])) (send_loop (three_in ∷ []) (1 ∷ 2 ∷ []) port)
send_loop-Sends_example =
    send_loop-Sends (three_in ∷ []) (1 ∷ 2 ∷ []) (5 ∷ 6 ∷ []) (5 ∷ 6 ∷ []) port
      (wrapped-Holds, wrapped-Holds)

recv_loop-Receives_example :
    Receives (queue_recv (three_in ∷ []) 4 (5 ∷ 6 ∷ [])) (recv_loop (three_in ∷ []) 4 port)
recv_loop-Receives_example =
    recv_loop-Receives (three_in ∷ []) 4 (5 ∷ 6 ∷ []) (5 ∷ 6 ∷ []) port
      (wrapped-Holds, wrapped-Holds)
