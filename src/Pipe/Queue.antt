-- ===== src/Pipe/Queue.antt =====
-- The pipes of src/modified/sys/uio.c against a bounded queue of bytes with two ends.
use native.Mathlib.Decide.{dec_le}
use unix_like_operating_syst.Base.{
  ℕ, zero, suc, ◌+◌, ◌-◌, ◌%◌, ◌≤◌, ◌<◌, ◌≡◌, refl, sym, ap, ◌∙◌, Bool, not, List, [], ◌∷◌, ◌++◌,
  arith, min, length, set, take, drop, length-set, append_assoc, append-nil, ltb, ◌==◌,
  if◌then◌else◌, take_all, drop_all, take-append_left, drop-append_left,
}
use unix_like_operating_syst.Base.Results.{Result, ok, err, epipe}
use unix_like_operating_syst.Pipe.{
  Pipe, Outcome, waits, done, page_size, read_loop, read_some, read, write_loop, write_some, write,
}
use unix_like_operating_syst.Pipe.Ring.{
  window, contents, IsValid, length-window, window-split, window-set,
}

pub record Stream : Type 0 where
  pub queue : List ℕ
  pub readable : Bool
  pub writable : Bool

-- What a client sees of a pipe.
abbrev pub stream : Pipe → Stream
stream p = record { queue = contents p; readable = p.read_open; writable = p.write_open }

-- Reading takes up to `n` bytes from the front; on an empty queue it waits for a writer, or is at
-- the end of the stream if there is none.
abbrev pub Stream_read : ℕ → Stream → Outcome (List ℕ) × Stream
Stream_read n s =
    if n == 0
    then (done [], s)
    else if length s.queue == 0
    then (if s.writable then waits else done [], s)
    else (done (take n s.queue), record s { queue = drop n s.queue })

-- Writing appends what fits; a full queue waits, and without a reader there is an error.
abbrev pub Stream_write : List ℕ → Stream → Outcome (Result ℕ) × Stream
Stream_write src s =
    if length src == 0
    then (done (ok 0), s)
    else if not s.readable
    then (done (err epipe), s)
    else if length s.queue == page_size
    then (waits, s)
    else (
      done (ok (min (length src) (page_size - length s.queue))),
      record s { queue = s.queue ++ take (page_size - length s.queue) src },
    )

read_loop-eq :
    (n : ℕ) (p : Pipe)
    → p.hpos < page_size
    → read_loop n p ≡ (window p.page p.hpos n, record p { hpos = (p.hpos + n) % page_size })
unfolding read_loop
read_loop-eq zero p h = let same : (p.hpos + 0) % page_size ≡ p.hpos = omega (arith, h) in rw same
read_loop-eq (suc n) p h =
    let moved : ((p.hpos + 1) % page_size + n) % page_size ≡ (p.hpos + suc n) % page_size =
      omega arith in
    rw (read_loop-eq n (record p { hpos = (p.hpos + 1) % page_size }) (omega arith), moved)

-- What the loop of `pipe_write` has done, `k` bytes being there before.
record Wrote (p p' : Pipe) (k n : ℕ) (src : List ℕ) : Type 0 where
  sized : length p'.page ≡ page_size
  tail : p'.tpos ≡ (p.hpos + k + n) % page_size
  bytes : window p'.page p.hpos (k + n) ≡ window p.page p.hpos k ++ take n src
  head : p'.hpos ≡ p.hpos
  count : p'.bytecnt ≡ p.bytecnt
  read_end : p'.read_open ≡ p.read_open
  write_end : p'.write_open ≡ p.write_open

write_loop-Wrote :
    (n k : ℕ) (src : List ℕ) (p : Pipe)
    → length p.page ≡ page_size
    → p.hpos < page_size
    → p.tpos ≡ (p.hpos + k) % page_size
    → k + n ≤ page_size
    → n ≤ length src
    → Wrote p (write_loop n src p) k n src
unfolding write_loop
write_loop-Wrote zero k src p sz hh ht room enough =
    let same : k + 0 ≡ k = omega arith in
    record {
      sized = sz;
      tail = omega (arith, ht);
      bytes = rw (same, append-nil);
      head = refl;
      count = refl;
      read_end = refl;
      write_end = refl;
    }
write_loop-Wrote (suc n) k [] p sz hh ht room enough = absurd (omega arith)
write_loop-Wrote (suc n) k (x ∷ src) p sz hh ht room enough =
    let p' : Pipe = record p { page = set p.page p.tpos x; tpos = (p.tpos + 1) % page_size } in
    let step : k + suc n ≡ suc k + n = omega arith in
    let w : Wrote p' (write_loop n src p') (suc k) n src =
      write_loop-Wrote n (suc k) src p' (length-set p.page p.tpos x ∙ sz) hh (omega (arith, ht))
        (omega arith) (omega arith) in
    record {
      sized = w.sized;
      tail = w.tail ∙ ap (λ (j : ℕ). j % page_size) (omega arith);
      bytes =
          ap (window (write_loop n src p').page p.hpos) step
          ∙ (w.bytes
              ∙ (ap (λ (l : List ℕ). l ++ take n src)
                    (window-set p.page x k p.hpos p.tpos sz hh (omega arith) ht)
                  ∙ append_assoc (window p.page p.hpos k) (x ∷ []) (take n src)));
      head = w.head;
      count = w.count;
      read_end = w.read_end;
      write_end = w.write_end;
    }

-- The number of bytes that a call moves.
moved : ℕ → ℕ → ℕ
moved a b = if ltb a b then a else b

moved_le : (a b : ℕ) → (moved a b ≤ a) × (moved a b ≤ b) × (moved a b ≡ min a b)
unfolding moved
moved_le a b = ground arith

moved_lem : (a b : ℕ) → (if ltb a b then a else b) ≡ moved a b
unfolding moved
moved_lem a b = refl

take-moved : (n : ℕ) (src : List ℕ) → take (moved (length src) n) src ≡ take n src
take-moved n src = elim (dec_le n (length src)) [
  | yes le ↦ ap (λ (k : ℕ). take k src) (omega (arith, moved_le (length src) n))
  | no gt ↦
      take_all (moved (length src) n) src (omega (arith, moved_le (length src) n))
      ∙ sym (take_all n src (omega arith))
]

-- The front of a window of `c` bytes, and its rest.
window-take :
    (page : List ℕ) (h n c : ℕ)
    → h < page_size
    → (take n (window page h c) ≡ window page h (moved n c))
      × (drop n (window page h c) ≡ window page ((h + moved n c) % page_size) (c - moved n c))
window-take page h n c hh =
    let k : ℕ = moved n c in
    let split : window page h c ≡ window page h k ++ window page ((h + k) % page_size) (c - k) =
      window-split page h (c - k) k c hh (omega (arith, moved_le n c)) in
    elim (dec_le n c) [
      | yes le ↦
          let e : length (window page h k) ≡ n =
            length-window page h k ∙ omega (arith, moved_le n c) in
          rw split (take-append_left n _ _ e, drop-append_left n _ _ e)
      | no gt ↦
          let all : moved n c ≡ c = omega (arith, moved_le n c) in
          let none_left : c - c ≡ 0 = omega arith in
          let short : length (window page h c) ≤ n = omega (arith, length-window page h c) in
          rw (all, none_left)
            (take_all n (window page h c) short, drop_all n (window page h c) short)
    ]

read_some-Stream :
    (n : ℕ) (p : Pipe)
    → IsValid p
    → IsValid (read_some n p).1
      × ((read_some n p).0 ≡ done (take n (contents p)))
      × (stream (read_some n p).1 ≡ record (stream p) { queue = drop n (contents p) })
unfolding read_some
read_some-Stream n p v =
    let k : ℕ = moved n p.bytecnt in
    let (taken, left) = window-take p.page p.hpos n p.bytecnt v.head_in in
    rw (moved_lem n p.bytecnt, read_loop-eq k p v.head_in)
      (
        record {
          sized = v.sized;
          head_in = omega arith;
          tail_here = omega (arith, v.tail_here, moved_le n p.bytecnt);
          fits = omega (arith, v.fits);
        },
        ap done (sym taken),
        ap (λ (q : List ℕ). record (stream p) { queue = q }) (sym left),
      )

-- `pipe_read` on a valid ring keeps it valid, returns what reading from its queue of bytes
-- returns (the bytes from the front, the end of the stream, or that the caller waits), and leaves
-- the rest of that queue behind.
pub read-Stream :
    (n : ℕ) (p : Pipe)
    → IsValid p
    → IsValid (read n p).1
      × ((read n p).0 ≡ (Stream_read n (stream p)).0)
      × (stream (read n p).1 ≡ (Stream_read n (stream p)).1)
unfolding read
read-Stream n p v = ground (arith, read_some-Stream n p v, length-window p.page p.hpos p.bytecnt)

write_some-Stream :
    (src : List ℕ) (p : Pipe)
    → IsValid p
    → IsValid (write_some src p).1
      × ((write_some src p).0 ≡ done (ok (min (length src) (page_size - p.bytecnt))))
      × (stream (write_some src p).1
          ≡ record (stream p) { queue = contents p ++ take (page_size - p.bytecnt) src })
unfolding write_some
write_some-Stream src p v =
    let space : ℕ = page_size - p.bytecnt in
    let k : ℕ = moved (length src) space in
    let w : Wrote p (write_loop k src p) p.bytecnt k src =
      write_loop-Wrote k p.bytecnt src p v.sized v.head_in v.tail_here
        (omega (arith, moved_le (length src) space, v.fits)) (moved_le (length src) space).0 in
    rw moved_lem (
      record {
        sized = w.sized;
        head_in = omega (arith, w.head, v.head_in);
        tail_here = omega (arith, w.tail, w.head, w.count);
        fits = omega (arith, w.count, moved_le (length src) space, v.fits);
      },
      ap (λ (j : ℕ). done (ok j)) (moved_le (length src) space).2,
      rw (w.head, w.count, w.read_end, w.write_end, w.bytes, take-moved space src),
    )

-- `pipe_write` on a valid ring keeps it valid, returns what writing to its queue of bytes returns
-- (the number of bytes that fitted, the error for a closed read end, or that the caller waits),
-- and leaves the queue behind with just those bytes appended.
pub write-Stream :
    (src : List ℕ) (p : Pipe)
    → IsValid p
    → IsValid (write src p).1
      × ((write src p).0 ≡ (Stream_write src (stream p)).0)
      × (stream (write src p).1 ≡ (Stream_write src (stream p)).1)
unfolding write
write-Stream src p v =
    ground (arith, write_some-Stream src p v, length-window p.page p.hpos p.bytecnt)
