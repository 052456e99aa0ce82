-- ===== src/Pipe/Stream.antt =====
-- Whole runs of the pipes of src/modified/sys/uio.c: nothing is lost, repeated or reordered, and
-- the memory is given back once, when both ends are closed.
use mathlib.Core.Path.{ap₂}
use unix_like_operating_syst.Base.{
  ℕ, zero, suc, ◌+◌, ◌-◌, ◌≡◌, refl, sym, ap, ◌∙◌, not, List, [], ◌∷◌, ◌++◌, arith, length, take,
  append_assoc, append-nil, if◌then◌else◌, take-append-drop, take-min, ltb, ◌&&◌, ◌%◌, set,
}
use unix_like_operating_syst.Base.Results.{Result, ok, err}
use unix_like_operating_syst.Pipe.{
  Pipe, Outcome, waits, done, page_size, create, read_loop, read_some, read, write_loop, write_some,
  write, close_read, close_write,
}
use unix_like_operating_syst.Pipe.Ring.{contents, IsValid}
use unix_like_operating_syst.Pipe.Queue.{
  Stream, stream, Stream_read, Stream_write, read-Stream, write-Stream,
}

pub data Call : Type 0 where
  read_call : ℕ → Call
  write_call : List ℕ → Call
  close_read_call close_write_call : Call

-- The bytes that a call takes from its caller into the pipe.
abbrev pub accepted : List ℕ → Outcome (Result ℕ) → List ℕ
accepted src (done (ok n)) = take n src
accepted src (done (err e)) = []
accepted src waits = []

abbrev pub delivered : Outcome (List ℕ) → List ℕ
delivered (done bytes) = bytes
delivered waits = []

-- One call: the bytes that went in, the bytes that came out, and the pipe after it.
pub call : Call → Pipe → List ℕ × List ℕ × Pipe
call (read_call n) p = let (o, p') = read n p in ([], delivered o, p')
call (write_call src) p = let (o, p') = write src p in (accepted src o, [], p')
call close_read_call p = ([], [], close_read p)
call close_write_call p = ([], [], close_write p)

-- A sequence of calls, by any threads, in the order in which they took the pipe's lock.
pub run : List Call → Pipe → List ℕ × List ℕ × Pipe
run [] p = ([], [], p)
run (k ∷ ks) p =
    let (i, o, p') = call k p in let (is, os, p'') = run ks p' in (i ++ is, o ++ os, p'')

read_conserves :
    (n : ℕ) (s : Stream) → delivered (Stream_read n s).0 ++ (Stream_read n s).1.queue ≡ s.queue
read_conserves n s = ground (arith, take-append-drop n s.queue)

write_conserves :
    (src : List ℕ) (s : Stream)
    → (Stream_write src s).1.queue ≡ s.queue ++ accepted src (Stream_write src s).0
write_conserves src s =
    ground (arith, append-nil s.queue, take-min (page_size - length s.queue) src)

call-conserves :
    (k : Call) (p : Pipe)
    → IsValid p
    → let (i, o, p') = call k p in IsValid p' × (contents p ++ i ≡ o ++ contents p')
unfolding call close_read close_write
call-conserves (read_call n) p v =
    let (v', r, st) = read-Stream n p v in
    (
      v',
      append-nil (contents p)
          ∙ (sym (read_conserves n (stream p))
              ∙ ap₂ (λ (o : Outcome (List ℕ)) (s : Stream). delivered o ++ s.queue) (sym r)
                  (sym st)),
    )
call-conserves (write_call src) p v =
    let (v', r, st) = write-Stream src p v in
    (
      v',
      ap (λ (o : Outcome (Result ℕ)). contents p ++ accepted src o) r
          ∙ (sym (write_conserves src (stream p)) ∙ ap (λ (s : Stream). s.queue) (sym st)),
    )
call-conserves close_read_call p v = (
  record { sized = v.sized; head_in = v.head_in; tail_here = v.tail_here; fits = v.fits },
  append-nil (contents p),
)
call-conserves close_write_call p v = (
  record { sized = v.sized; head_in = v.head_in; tail_here = v.tail_here; fits = v.fits },
  append-nil (contents p),
)

-- Over any sequence of calls on a valid ring, what stood in the pipe followed by the bytes that
-- went in is what came out followed by what stands in it after: no byte is lost, repeated or
-- reordered. The ring stays valid.
pub run-conserves :
    (ks : List Call) (p : Pipe)
    → IsValid p
    → let (i, o, p') = run ks p in IsValid p' × (contents p ++ i ≡ o ++ contents p')
unfolding run
run-conserves [] p v = (v, append-nil (contents p))
run-conserves (k ∷ ks) p v =
    let (v', one) = call-conserves k p v in
    let (v'', rest) = run-conserves ks (call k p).2 v' in
    (
      v'',
      chain (contents p) (contents (call k p).2) (contents (run ks (call k p).2).2) (call k p).0
          (call k p).1 (run ks (call k p).2).0 (run ks (call k p).2).1 one rest,
    )
  where
    chain :
        (c c' c'' i o is os : List ℕ)
        → c ++ i ≡ o ++ c'
        → c' ++ is ≡ os ++ c''
        → c ++ (i ++ is) ≡ (o ++ os) ++ c''
    chain c c' c'' i o is os e e' =
        sym (append_assoc c i is)
        ∙ (ap (λ l. l ++ is) e
            ∙ (append_assoc o c' is ∙ (ap (λ l. o ++ l) e' ∙ sym (append_assoc o os c''))))

-- The calls that move bytes leave the ends as they are.
record SameEnds (p p' : Pipe) : Type 0 where
  read_end : p'.read_open ≡ p.read_open
  write_end : p'.write_open ≡ p.write_open
  memory : p'.freed ≡ p.freed

read_loop-SameEnds : (n : ℕ) (p : Pipe) → SameEnds p (read_loop n p).1
unfolding read_loop
read_loop-SameEnds zero p = record { read_end = refl; write_end = refl; memory = refl }
read_loop-SameEnds (suc n) p =
    let h = read_loop-SameEnds n (record p { hpos = (p.hpos + 1) % page_size }) in
    record { read_end = h.read_end; write_end = h.write_end; memory = h.memory }

write_loop-SameEnds : (n : ℕ) (src : List ℕ) (p : Pipe) → SameEnds p (write_loop n src p)
unfolding write_loop
write_loop-SameEnds zero src p = record { read_end = refl; write_end = refl; memory = refl }
write_loop-SameEnds (suc n) [] p = record { read_end = refl; write_end = refl; memory = refl }
write_loop-SameEnds (suc n) (x ∷ src) p =
    let h =
      write_loop-SameEnds n src
        (record p { page = set p.page p.tpos x; tpos = (p.tpos + 1) % page_size }) in
    record { read_end = h.read_end; write_end = h.write_end; memory = h.memory }

-- The memory is given back just when both ends are closed.
abbrev pub IsFreedRight : Pipe → Type 0
IsFreedRight p = p.freed ≡ (not p.read_open && not p.write_open)

call-IsFreedRight : (k : Call) (p : Pipe) → IsFreedRight p → IsFreedRight (call k p).2
unfolding call close_read close_write read read_some write write_some
call-IsFreedRight (read_call n) p h =
    ground (arith, read_loop-SameEnds (if ltb n p.bytecnt then n else p.bytecnt) p)
call-IsFreedRight (write_call src) p h = ground (
  arith,
  write_loop-SameEnds
      (if ltb (length src) (page_size - p.bytecnt) then length src else page_size - p.bytecnt) src
      p,
)
call-IsFreedRight close_read_call p h = ground arith
call-IsFreedRight close_write_call p h = ground arith

run-IsFreedRight : (ks : List Call) (p : Pipe) → IsFreedRight p → IsFreedRight (run ks p).2
unfolding run
run-IsFreedRight [] p h = h
run-IsFreedRight (k ∷ ks) p h = run-IsFreedRight ks (call k p).2 (call-IsFreedRight k p h)

-- After any sequence of calls on a new pipe its memory has been given back exactly when both ends
-- have been closed, in whatever order.
pub run-freed :
    (ks : List Call) (page : List ℕ)
    → let p = (run ks (create page)).2 in p.freed ≡ (not p.read_open && not p.write_open)
unfolding create
run-freed ks page = run-IsFreedRight ks (create page) refl
