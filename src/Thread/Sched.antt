-- ===== src/Thread/Sched.antt =====
-- The scheduler and the conditions of src/modified/sys/thread.c.
--
-- Each thread list is the list of the threads that it holds (Thread.Queue.Fifo). Threads are named
-- by their index in `thrtab`, conditions by a number that stands for their address. `_thread_swtch`
-- is the change of the running thread: the code behind it runs once that thread is switched back.
-- The memory space that is switched with the thread is left out.
pub mod Placed
pub mod Wait
pub mod Broadcast
pub mod Exit
pub mod Robin
use unix_like_operating_syst.Base.{
  ℕ, ◌+◌, Bool, true, false, Option, none, some, List, [], ◌∷◌, ◌++◌, ◌==◌, if◌then◌else◌, put,
}

-- `IDLE_TID`
abbrev pub idle_tid : ℕ
idle_tid = 15

-- `enum thread_state`
pub data ThreadState : Type 0 where
  uninitialized waiting self ready exited : ThreadState

pub record Sched : Type 0 where
  pub running : ℕ
  pub state : ℕ → ThreadState
  pub wait_cond : ℕ → Option ℕ
  pub ready_list : List ℕ
  pub wait_list : ℕ → List ℕ

abbrev pub is_self : ThreadState → Bool
is_self self = true
is_self _ = false

-- A running thread that can run on goes to the end of the ready list.
pub requeue : Sched → Sched
requeue s =
    if is_self (s.state s.running)
    then record s {
      state = put s.state s.running ready;
      ready_list = s.ready_list ++ (s.running ∷ []);
    }
    else s

pub switch : Sched → List ℕ → Option Sched
switch s [] = none
switch s (next ∷ rest) =
    some (record s { running = next; state = put s.state next self; ready_list = rest })

-- `running_thread_suspend` up to the switch: `none` where no thread is ready, and the code follows
-- a null pointer.
pub suspend : Sched → Option Sched
suspend s = switch (requeue s) (requeue s).ready_list

-- `running_thread_yield`
pub yield : Sched → Option Sched
yield s = suspend s

-- `condition_wait` up to its suspension: the running thread on the condition's list.
pub start_wait : ℕ → Sched → Sched
start_wait c s = record s {
  state = put s.state s.running waiting;
  wait_cond = put s.wait_cond s.running (some c);
  wait_list = put s.wait_list c (s.wait_list c ++ (s.running ∷ []));
}

-- `condition_wait`, on a thread whose state is `self`, as its assertion demands
pub condition_wait : ℕ → Sched → Option Sched
condition_wait c s = suspend (start_wait c s)

-- The walk of `condition_broadcast` over the waiters.
pub set_ready : List ℕ → Sched → Sched
set_ready [] s = s
set_ready (t ∷ ts) s =
    set_ready ts (record s { state = put s.state t ready; wait_cond = put s.wait_cond t none })

-- `condition_broadcast`
pub condition_broadcast : ℕ → Sched → Sched
condition_broadcast c s =
    let s' = set_ready (s.wait_list c) s in
    record s' { ready_list = s'.ready_list ++ s.wait_list c; wait_list = put s'.wait_list c [] }

-- `running_thread_exit` behind the release of the locks: `parent` is the `child_exit` condition of
-- the thread's parent, if it has one.
pub leave_thread : Option ℕ → Sched → Option Sched
leave_thread parent s =
    let s' : Sched = record s { state = put s.state s.running exited } in
    elim parent [ none ↦ suspend s' | some c ↦ suspend (condition_broadcast c s') ]
