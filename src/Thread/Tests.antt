-- ===== src/Thread/Tests.antt =====
-- The threads of src/modified/sys/thread.c on small schedulers, lists and tables.
use unix_like_operating_syst.Base.{
  ℕ, ◌+◌, ◌≡◌, ◌≢◌, refl, sym, inl, inr, Option, none, some, [], ◌∷◌, arith, ◌==◌, if◌then◌else◌,
  put, Bool-cases, ne→==,
}
use unix_like_operating_syst.Thread.Queue.{Links, ThreadList, tlremove}
use unix_like_operating_syst.Thread.Queue.Fifo.{AllApart, Holds, Removed, tlremove-Holds}
use unix_like_operating_syst.Thread.Sched.{
  ThreadState, uninitialized, waiting, self, ready, exited, Sched, yield, condition_wait,
  condition_broadcast,
}
use unix_like_operating_syst.Thread.Sched.Placed.{
  occurs, on_ready, on_cond, IsPlaced, Yields, yield-Switched,
}
use unix_like_operating_syst.Thread.Sched.Wait.{Waits, condition_wait-Switched}
use unix_like_operating_syst.Thread.Sched.Broadcast.{Woken, condition_broadcast-Woken}
use unix_like_operating_syst.Thread.Sched.Robin.{Runs, yields, yields-Runs}
use unix_like_operating_syst.Thread.Lock.{
  Locks, owned_by, lock_acquire, lock_release, running_thread_exit,
}
use unix_like_operating_syst.Thread.Lock.Held.{Counted, IsHeld, Acquires, lock_acquire-Acquires}
use unix_like_operating_syst.Thread.Lock.Release.{Releases, lock_release-Releases}
use unix_like_operating_syst.Thread.Lock.Exit.{Exits, running_thread_exit-Exits}
use unix_like_operating_syst.Thread.Table.{Thread, Threads}

-- Threads 1 and 2 stand on one list, thread 3 on another.
abbrev links : Links
links = put (λ _. none) 1 (some 2)

abbrev pair : ThreadList
pair = record { head = some 1; tail = some 2 }

abbrev single : ThreadList
single = record { head = some 3; tail = some 3 }

pair-Holds : Holds links pair (1 ∷ 2 ∷ [])
pair-Holds = record {
  at_head = refl;
  at_tail = refl;
  linked = (refl, (refl, tt));
  apart = (((λ e. omega (arith, e)), tt), (tt, tt));
}

single-Holds : Holds links single (3 ∷ [])
single-Holds = record { at_head = refl; at_tail = refl; linked = (refl, tt); apart = (tt, tt) }

abbrev three_apart : AllApart (1 ∷ 2 ∷ 3 ∷ [])
three_apart = (
  ((λ e. omega (arith, e)), ((λ e. omega (arith, e)), tt)),
  (((λ e. omega (arith, e)), tt), (tt, tt)),
)

tlremove-Holds_example : Removed links pair (1 ∷ 2 ∷ []) (tlremove pair links)
tlremove-Holds_example = tlremove-Holds links pair (1 ∷ 2 ∷ []) pair-Holds

-- The main thread runs, thread 1 and the idle thread are ready, and thread 2 waits for condition 7.
abbrev four_states : ℕ → ThreadState
four_states = put (put (put (put (λ _. uninitialized) 0 self) 1 ready) 2 waiting) 15 ready

abbrev four : Sched
four = record {
  running = 0;
  state = four_states;
  wait_cond = put (λ _. none) 2 (some 7);
  ready_list = 1 ∷ 15 ∷ [];
  wait_list = put (λ _. []) 7 (2 ∷ []);
}

four-readied : (i : ℕ) → occurs i (1 ∷ 15 ∷ []) ≡ on_ready (four_states i)
four-readied i = ground arith

four-waited : (i c : ℕ) → occurs i (four.wait_list c) ≡ on_cond c (four_states i) (four.wait_cond i)
four-waited i c = ground arith

ready-not_self : ready ≢ self
ready-not_self e = cc e

waiting-not_self : waiting ≢ self
waiting-not_self e = cc e

uninitialized-not_self : uninitialized ≢ self
uninitialized-not_self e = cc e

four-alone : (i : ℕ) → i ≢ 0 → four_states i ≢ self
four-alone i ne = elim (Bool-cases (15 == i)) [
  | inl a ↦ rw a ready-not_self
  | inr a ↦ elim (Bool-cases (2 == i)) [
    | inl b ↦ rw (a, b) waiting-not_self
    | inr b ↦ elim (Bool-cases (1 == i)) [
      | inl c ↦ rw (a, b, c) ready-not_self
      | inr c ↦ rw (a, b, c, ne→== 0 i (λ e. ne (sym e))) uninitialized-not_self
    ]
  ]
]

four-IsPlaced : IsPlaced four
four-IsPlaced = record {
  runs = refl;
  alone = four-alone;
  queued = record { readied = four-readied; waited = four-waited };
  idles = inr refl;
}

main_not_idle : four.running ≢ 15
main_not_idle e = omega (arith, e)

yield-Switched_example : Yields four (yield four)
yield-Switched_example = yield-Switched four four-IsPlaced

condition_wait-Switched_example : Waits 7 four (condition_wait 7 four)
condition_wait-Switched_example = condition_wait-Switched 7 four main_not_idle four-IsPlaced

condition_broadcast-Woken_example : Woken 7 four (condition_broadcast 7 four)
condition_broadcast-Woken_example = condition_broadcast-Woken 7 four four-IsPlaced

yields-Runs_example : Runs 15 (0 ∷ 1 ∷ []) (yields 2 four)
yields-Runs_example = yields-Runs four 15 (1 ∷ []) [] four-IsPlaced refl

-- The main thread holds lock 5 twice, thread 1 holds lock 6, and lock 4 is free.
abbrev two_held : Locks
two_held = record {
  sched = four;
  owner = put (put (λ _. none) 5 (some 0)) 6 (some 1);
  cnt = put (put (λ _. 0) 5 2) 6 1;
  held = put (put (λ _. []) 0 (5 ∷ [])) 1 (6 ∷ []);
  release = λ l. l + 100;
}

two_held-listed :
    (l t : ℕ) → occurs l (two_held.held t) ≡ (if owned_by (two_held.owner l) t then 1 else 0)
two_held-listed l t = ground arith

two_held-Counted : (l : ℕ) → Counted (two_held.owner l) (two_held.cnt l)
two_held-Counted l = ground arith

two_held-IsHeld : IsHeld two_held
two_held-IsHeld = record {
  placed = four-IsPlaced;
  listed = two_held-listed;
  counted = two_held-Counted;
}

lock_acquire-Acquires_example : Acquires 6 two_held (lock_acquire 6 two_held)
lock_acquire-Acquires_example =
    lock_acquire-Acquires 6 two_held main_not_idle (omega arith) two_held-IsHeld

lock_release-Releases_example : Releases 5 two_held (lock_release 5 two_held)
lock_release-Releases_example = lock_release-Releases 5 two_held refl two_held-IsHeld

-- Thread 1 runs and holds lock 5 twice, the main thread waits for its exit at condition 7, thread 2
-- waits for the release of the lock at condition 105, and the idle thread is ready.
abbrev last_states : ℕ → ThreadState
last_states = put (put (put (put (λ _. uninitialized) 0 waiting) 1 self) 2 waiting) 15 ready

abbrev last_sched : Sched
last_sched = record {
  running = 1;
  state = last_states;
  wait_cond = put (put (λ _. none) 0 (some 7)) 2 (some 105);
  ready_list = 15 ∷ [];
  wait_list = put (put (λ _. []) 7 (0 ∷ [])) 105 (2 ∷ []);
}

last-readied : (i : ℕ) → occurs i (15 ∷ []) ≡ on_ready (last_states i)
last-readied i = ground arith

last-waited :
    (i c : ℕ)
    → occurs i (last_sched.wait_list c) ≡ on_cond c (last_states i) (last_sched.wait_cond i)
last-waited i c = ground arith

last-alone : (i : ℕ) → i ≢ 1 → last_states i ≢ self
last-alone i ne = elim (Bool-cases (15 == i)) [
  | inl a ↦ rw a ready-not_self
  | inr a ↦ elim (Bool-cases (2 == i)) [
    | inl b ↦ rw (a, b) waiting-not_self
    | inr b ↦ elim (Bool-cases (0 == i)) [
      | inl c ↦ rw (a, b, ne→== 1 i (λ e. ne (sym e)), c) waiting-not_self
      | inr c ↦ rw (a, b, ne→== 1 i (λ e. ne (sym e)), c) uninitialized-not_self
    ]
  ]
]

last-IsPlaced : IsPlaced last_sched
last-IsPlaced = record {
  runs = refl;
  alone = last-alone;
  queued = record { readied = last-readied; waited = last-waited };
  idles = inr refl;
}

abbrev last_locks : Locks
last_locks = record {
  sched = last_sched;
  owner = put (λ _. none) 5 (some 1);
  cnt = put (λ _. 0) 5 2;
  held = put (λ _. []) 1 (5 ∷ []);
  release = λ l. l + 100;
}

last-listed :
    (l t : ℕ) → occurs l (last_locks.held t) ≡ (if owned_by (last_locks.owner l) t then 1 else 0)
last-listed l t = ground arith

last-Counted : (l : ℕ) → Counted (last_locks.owner l) (last_locks.cnt l)
last-Counted l = ground arith

last-IsHeld : IsHeld last_locks
last-IsHeld = record { placed = last-IsPlaced; listed = last-listed; counted = last-Counted }

last_not_idle : last_sched.running ≢ 15
last_not_idle e = omega (arith, e)

running_thread_exit-Exits_example :
    Exits (some 7) last_locks (running_thread_exit (some 7) last_locks)
running_thread_exit-Exits_example =
    running_thread_exit-Exits (some 7) last_locks last_not_idle last-IsHeld

-- The main thread, thread 3, which is its child and has exited, thread 4, which is a child of that
-- one, and the idle thread.
abbrev child : ThreadState → Option ℕ → Option Thread
child st p = some (record { state = st; parent = p; proc = none })

abbrev family : Threads
family =
    put
      (put (put (put (λ _. none) 0 (child self none)) 3 (child exited (some 0))) 4
        (child ready (some 3)))
      15 (child ready (some 0))
