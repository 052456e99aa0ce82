-- ===== src/Thread/Lock.antt =====
-- Recursive locks of src/modified/sys/thread.c.
--
-- A lock is named by a number; `release` names its condition. `held t` is the list that starts at a
-- thread's `lock_list` and goes on through each lock's `next`.
pub mod Held
pub mod Release
pub mod All
pub mod Exit
use unix_like_operating_syst.Base.{
  ℕ, ◌+◌, ◌-◌, ◌%◌, ◌^◌, Bool, true, false, Option, none, some, List, [], ◌∷◌, ◌==◌, if◌then◌else◌,
  put,
}
use unix_like_operating_syst.Thread.Sched.{Sched, condition_broadcast, condition_wait, leave_thread}

pub record Locks : Type 0 where
  pub sched : Sched
  pub owner : ℕ → Option ℕ
  pub cnt : ℕ → ℕ
  pub held : ℕ → List ℕ
  pub release : ℕ → ℕ

abbrev pub owned_by : Option ℕ → ℕ → Bool
owned_by none t = false
owned_by (some u) t = u == t

-- What one look at the lock in `lock_acquire` finds: the caller has the lock, waits for it and
-- looks again when it runs again, or follows a null pointer as no thread is ready.
pub data Acquire : Type 0 where
  acquired : Locks → Acquire
  waits : Locks → Acquire
  stuck : Acquire

pub waits_in : Locks → Option Sched → Acquire
waits_in k none = stuck
waits_in k (some s) = waits (record k { sched = s })

-- The branches of `lock_acquire`, by the lock's owner.
pub acquire_from : Option ℕ → ℕ → Locks → Acquire
acquire_from none l k = acquired (record k {
  owner = put k.owner l (some k.sched.running);
  cnt = put k.cnt l 1;
  held = put k.held k.sched.running (l ∷ k.held k.sched.running);
})
acquire_from (some u) l k =
    if u == k.sched.running
    then acquired (record k { cnt = put k.cnt l ((k.cnt l + 1) % 2 ^ 64) })
    else waits_in k (condition_wait (k.release l) k.sched)

-- `lock_acquire`, by the running thread
pub lock_acquire : ℕ → Locks → Acquire
lock_acquire l k = acquire_from (k.owner l) l k

abbrev pub keep : ℕ → Option (List ℕ) → Option (List ℕ)
keep m none = none
keep m (some ms) = some (m ∷ ms)

-- The walk to a lock in a thread's list, which is unlinked: `none` is a failed assertion.
pub unlink : ℕ → List ℕ → Option (List ℕ)
unlink l [] = none
unlink l (m ∷ ms) = let rest = unlink l ms in if m == l then some ms else keep m rest

-- The stores of `lock_release_completely`, after the broadcast and the walk.
pub disown : ℕ → Locks → Sched → Option (List ℕ) → Option Locks
disown l k s none = none
disown l k s (some ms) =
    some (record k { sched = s; held = put k.held k.sched.running ms; owner = put k.owner l none })

-- `lock_release_completely`
pub release_completely : ℕ → Locks → Option Locks
release_completely l k =
    disown l k (condition_broadcast (k.release l) k.sched) (unlink l (k.held k.sched.running))

-- `lock_release`: `none` is a failed assertion.
pub lock_release : ℕ → Locks → Option Locks
lock_release l k =
    if owned_by (k.owner l) k.sched.running
    then if k.cnt l == 0
      then none
      else if k.cnt l - 1 == 0
      then release_completely l (record k { cnt = put k.cnt l (k.cnt l - 1) })
      else some (record k { cnt = put k.cnt l (k.cnt l - 1) })
    else none

-- The walk of `release_all_thread_locks` over a thread's list.
pub release_each : List ℕ → Locks → Locks
release_each [] k = k
release_each (l ∷ ls) k = release_each ls (record k {
  sched = condition_broadcast (k.release l) k.sched;
  owner = put k.owner l none;
  cnt = put k.cnt l 0;
})

-- `release_all_thread_locks`
pub release_all : ℕ → Locks → Locks
release_all t k = let k' = release_each (k.held t) k in record k' { held = put k'.held t [] }

-- `MAIN_TID`
abbrev pub main_tid : ℕ
main_tid = 0

-- What an exit comes to: the machine halts, another thread runs, or a null pointer is followed as no
-- thread is ready.
pub data Leaving : Type 0 where
  halted : Leaving
  left : Locks → Leaving
  nobody : Leaving

pub left_in : Locks → Option Sched → Leaving
left_in k none = nobody
left_in k (some s) = left (record k { sched = s })

-- `running_thread_exit`, where `parent` is the `child_exit` condition of the thread's parent, if it
-- has one
pub running_thread_exit : Option ℕ → Locks → Leaving
running_thread_exit parent k =
    let k' = release_all k.sched.running k in
    if k.sched.running == main_tid then halted else left_in k' (leave_thread parent k'.sched)
