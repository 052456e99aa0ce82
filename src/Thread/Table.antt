-- ===== src/Thread/Table.antt =====
-- The thread table of src/modified/sys/thread.c: creating threads, joining and reclaiming them.
--
-- A thread's pointer is its index in `thrtab`: a thread that is not in the table is pointed to by no
-- thread of the table (Thread.Table.Rooted). Stacks and contexts are left out.
pub mod Slots
pub mod Rooted
pub mod Join
use unix_like_operating_syst.Base.{
  ℕ, zero, suc, ◌+◌, Bool, true, false, ◌||◌, Option, none, some, ltb, leb, ◌==◌, if◌then◌else◌,
  put,
}
use unix_like_operating_syst.Base.Results.{Result, ok, err, einval, emthr}
use unix_like_operating_syst.Thread.Sched.{ThreadState, uninitialized, ready, exited, idle_tid}

-- `NTHR`
abbrev pub max_threads : ℕ
max_threads = 16

pub record Thread : Type 0 where
  pub state : ThreadState
  pub parent : Option ℕ
  pub proc : Option ℕ

abbrev pub Threads : Type 0
Threads = ℕ → Option Thread

abbrev pub is_free : Option Thread → Bool
is_free none = true
is_free (some _) = false

-- Whether this thread is the parent.
abbrev pub is : Option ℕ → ℕ → Bool
is none t = false
is (some p) t = p == t

abbrev pub is_child_of : ℕ → Option Thread → Bool
is_child_of t none = false
is_child_of t (some c) = is c.parent t

abbrev pub has_exited : ThreadState → Bool
has_exited exited = true
has_exited _ = false

abbrev pub is_exited_child_of : ℕ → Option Thread → Bool
is_exited_child_of t none = false
is_exited_child_of t (some c) = if is c.parent t then has_exited c.state else false

-- The first of so many slots from an index on that passes a test.
pub find_slot : (Option Thread → Bool) → ℕ → ℕ → Threads → Option ℕ
find_slot test zero i tab = none
find_slot test (suc n) i tab =
    let rest = find_slot test n (i + 1) tab in if test (tab i) then some i else rest

abbrev pub proc_of : Option Thread → Option ℕ
proc_of none = none
proc_of (some t) = t.proc

-- A new thread in the slot found.
pub fill_slot : Option ℕ → ℕ → Threads → Option (ℕ × Threads)
fill_slot none self tab = none
fill_slot (some tid) self tab = some (
  tid,
  put tab tid
      (some record { state = uninitialized; parent = some self; proc = proc_of (tab self) }),
)

-- `create_thread`, by thread `self`: the slot, and the table.
pub create_thread : ℕ → Threads → Option (ℕ × Threads)
create_thread self tab = fill_slot (find_slot is_free 15 1 tab) self tab

abbrev pub with_state : ThreadState → Option Thread → Option Thread
with_state st none = none
with_state st (some t) = some (record t { state = st })

-- The new thread is made ready.
pub spawned : Threads → Option (ℕ × Threads) → Result ℕ × Threads
spawned tab none = (err emthr, tab)
spawned tab (some (tid, tab')) = (ok tid, put tab' tid (with_state ready (tab' tid)))

-- `spawn_thread`: the thread's identifier, which goes on the ready list.
pub spawn_thread : ℕ → Threads → Result ℕ × Threads
spawn_thread self tab = spawned tab (create_thread self tab)

-- A child of one thread becomes a child of its parent.
abbrev pub adopt : ℕ → Option ℕ → Option Thread → Option Thread
adopt tid parent none = none
adopt tid parent (some c) = if is c.parent tid then some (record c { parent = parent }) else some c

-- The loop of `thread_reclaim` over the slots below an index, the first one left out.
pub reparent : ℕ → Option ℕ → ℕ → Threads → Threads
reparent tid parent zero tab = tab
reparent tid parent (suc zero) tab = tab
reparent tid parent (suc (suc n)) tab =
    let tab' = reparent tid parent (suc n) tab in put tab' (suc n) (adopt tid parent (tab' (suc n)))

abbrev pub parent_of : Option Thread → Option ℕ
parent_of none = none
parent_of (some t) = t.parent

-- `thread_reclaim`
pub thread_reclaim : ℕ → Threads → Threads
thread_reclaim tid tab = put (reparent tid (parent_of (tab tid)) max_threads tab) tid none

pub data Joining : Type 0 where
  joined : ℕ → Threads → Joining
  waits : Joining
  invalid : Joining

-- `thread_join` of one thread, not 0, by thread `self`: what a look at the slot decides. The first
-- look, before the loop, is made again in the loop. A negative number is refused too.
pub join_one : ℕ → ℕ → Threads → Joining
join_one tid self tab =
    if leb max_threads tid || tid == idle_tid
    then invalid
    else if is_child_of self (tab tid)
    then if is_exited_child_of self (tab tid) then joined tid (thread_reclaim tid tab) else waits
    else invalid

-- What the scans for an exited child and for a child decide.
pub join_found : Option ℕ → Option ℕ → Bool → Threads → Joining
join_found (some i) child first tab = joined i (thread_reclaim i tab)
join_found none (some _) first tab = waits
join_found none none first tab = if first then invalid else waits

-- `thread_join` of any child: `first` is the look before the loop, which also asks for a child.
pub join_any : Bool → ℕ → Threads → Joining
join_any first self tab =
    join_found (find_slot (is_exited_child_of self) 14 1 tab)
      (find_slot (is_child_of self) 14 1 tab) first tab

-- `thread_join`: what one of its looks decides; `first` is the look before a loop.
pub thread_join : ℕ → Bool → ℕ → Threads → Joining
thread_join tid first self tab = if tid == 0 then join_any first self tab else join_one tid self tab
