-- ===== src/Thread/Lock/Exit.antt =====
-- The exit of a thread in src/modified/sys/thread.c, with the locks that it holds.
use mathlib.Core.Path.{subst}
use unix_like_operating_syst.Base.{
  ℕ, ◌≡◌, ◌≢◌, refl, sym, ap, ◌∙◌, inl, inr, Option, none, some, List, [], ◌∷◌, ◌++◌, ◌==◌,
  Bool-cases, ==→eq, ==→ne, put, append_assoc, append-nil,
}
use unix_like_operating_syst.Thread.Sched.{
  exited, Sched, idle_tid, leave_thread, condition_broadcast,
}
use unix_like_operating_syst.Thread.Sched.Broadcast.{broadcast-lists}
use unix_like_operating_syst.Thread.Sched.Exit.{Exited, ready_after, leave_thread-Exited}
use unix_like_operating_syst.Thread.Lock.{
  Locks, release_each, release_all, main_tid, Leaving, halted, left, nobody, left_in,
  running_thread_exit,
}
use unix_like_operating_syst.Thread.Lock.Held.{IsHeld}
use unix_like_operating_syst.Thread.Lock.All.{Freed, release_all-Frees}

-- The conditions that an exit signals: the release of each lock held, and the parent's `child_exit`.
abbrev pub releases : (ℕ → ℕ) → List ℕ → List ℕ
releases release [] = []
releases release (l ∷ ls) = release l ∷ releases release ls

abbrev pub and_parent : Option ℕ → List ℕ
and_parent none = []
and_parent (some c) = c ∷ []

-- The waiters for some conditions, in the order of these; nobody waits twice.
abbrev pub waiters : List ℕ → (ℕ → List ℕ) → List ℕ
waiters [] wl = []
waiters (c ∷ cs) wl = wl c ++ waiters cs (put wl c [])

abbrev emptied : List ℕ → (ℕ → List ℕ) → ℕ → List ℕ
emptied [] wl = wl
emptied (c ∷ cs) wl = emptied cs (put wl c [])

waiters-append :
    (cs ds : List ℕ) (wl : ℕ → List ℕ)
    → waiters (cs ++ ds) wl ≡ waiters cs wl ++ waiters ds (emptied cs wl)
waiters-append [] ds wl = refl
waiters-append (c ∷ cs) ds wl =
    ap (λ ts. wl c ++ ts) (waiters-append cs ds (put wl c []))
    ∙ sym (append_assoc (wl c) (waiters cs (put wl c [])) (waiters ds (emptied cs (put wl c []))))

-- What the walk over the locks leaves of the lists of threads.
release_each-lists :
    (ls : List ℕ) (k : Locks)
    → ((release_each ls k).sched.running ≡ k.sched.running)
      × ((release_each ls k).sched.ready_list
          ≡ k.sched.ready_list ++ waiters (releases k.release ls) k.sched.wait_list)
      × ((release_each ls k).sched.wait_list ≡ emptied (releases k.release ls) k.sched.wait_list)
unfolding release_each
release_each-lists [] k = (refl, sym (append-nil k.sched.ready_list), refl)
release_each-lists (l ∷ ls) k =
    let c = k.release l in
    let one = broadcast-lists c k.sched in
    let cs = releases k.release ls in
    let ih = release_each-lists ls (record k {
      sched = condition_broadcast c k.sched;
      owner = put k.owner l none;
      cnt = put k.cnt l 0;
    }) in
    (
      ih.0 ∙ one.0,
      ih.1
          ∙ ap (λ ts. ts ++ waiters cs (condition_broadcast c k.sched).wait_list) one.1
          ∙ ap (λ (wl : ℕ → List ℕ). (k.sched.ready_list ++ k.sched.wait_list c) ++ waiters cs wl)
              one.2
          ∙ append_assoc k.sched.ready_list (k.sched.wait_list c)
              (waiters cs (put k.sched.wait_list c [])),
      ih.2 ∙ ap (emptied cs) one.2,
    )

-- What an exit promises: the main thread halts the machine; any other has exited, and holds no lock,
-- the waiters for its locks and its parent stand behind the ready threads, and the first of all of
-- these runs.
abbrev pub Exits : Option ℕ → Locks → Leaving → Type 0
Exits parent k halted = k.sched.running ≡ main_tid
Exits parent k nobody = ⊥
Exits parent k (left k') =
    let t = k.sched.running in
    (t ≢ main_tid)
    × IsHeld k'
    × ((l : ℕ) → Freed t k k' l)
    × (k'.held t ≡ [])
    × (k'.sched.state t ≡ exited)
    × (k.sched.ready_list
          ++ waiters (releases k.release (k.held t) ++ and_parent parent) k.sched.wait_list
        ≡ k'.sched.running ∷ k'.sched.ready_list)

ready_after-waiters :
    (parent : Option ℕ) (s : Sched)
    → ready_after parent s ≡ s.ready_list ++ waiters (and_parent parent) s.wait_list
ready_after-waiters none s = sym (append-nil s.ready_list)
ready_after-waiters (some c) s = ap (λ ts. s.ready_list ++ ts) (sym (append-nil (s.wait_list c)))

release_all-running : (t : ℕ) (k : Locks) → (release_all t k).sched.running ≡ k.sched.running
unfolding release_all
release_all-running t k = (release_each-lists (k.held t) k).0

queue_after :
    (parent : Option ℕ) (k : Locks)
    → let t = k.sched.running in
      ready_after parent (release_all t k).sched
      ≡ k.sched.ready_list
        ++ waiters (releases k.release (k.held t) ++ and_parent parent) k.sched.wait_list
unfolding release_all
queue_after parent k =
    let s = (release_each (k.held k.sched.running) k).sched in
    let lists = release_each-lists (k.held k.sched.running) k in
    let cs = releases k.release (k.held k.sched.running) in
    let ds = and_parent parent in
    ready_after-waiters parent s
    ∙ ap (λ ts. ts ++ waiters ds s.wait_list) lists.1
    ∙ ap
        (λ (wl : ℕ → List ℕ). (k.sched.ready_list ++ waiters cs k.sched.wait_list) ++ waiters ds wl)
        lists.2
    ∙ append_assoc k.sched.ready_list (waiters cs k.sched.wait_list)
        (waiters ds (emptied cs k.sched.wait_list))
    ∙ ap (λ ts. k.sched.ready_list ++ ts) (sym (waiters-append cs ds k.sched.wait_list))

left_in-Exits :
    (parent : Option ℕ) (k k1 : Locks) (o : Option Sched)
    → k.sched.running ≢ main_tid
    → IsHeld k1
    → ((l : ℕ) → Freed k.sched.running k k1 l)
    → k1.held k.sched.running ≡ []
    → Exited k.sched.running
        (k.sched.ready_list
          ++ waiters
              (releases k.release (k.held k.sched.running) ++ and_parent parent)
              k.sched.wait_list)
        o
    → Exits parent k (left_in k1 o)
unfolding left_in
left_in-Exits parent k k1 none ne h f e x = x
left_in-Exits parent k k1 (some s) ne h f e x =
    (ne, record { placed = x.0; listed = h.listed; counted = h.counted }, f, e, x.1, x.2)

-- Where every thread is in its place and each lock is on its owner's list with a count of its
-- holds, `running_thread_exit` of the main thread halts the machine. That of any other thread but the
-- idle one frees each of its locks and no other, marks it exited, puts the waiters for the release of
-- each of its locks, in the order of its list, and then those for its parent's `child_exit` behind
-- the ready threads, and runs the first of these; the lists still hold what each thread owns, and
-- every thread is where its state says.
pub running_thread_exit-Exits :
    (parent : Option ℕ) (k : Locks)
    → k.sched.running ≢ idle_tid
    → IsHeld k
    → Exits parent k (running_thread_exit parent k)
unfolding running_thread_exit
running_thread_exit-Exits parent k ne h = elim (Bool-cases (k.sched.running == main_tid)) [
  | inl y ↦ rw y (==→eq k.sched.running main_tid y)
  | inr n ↦
      let t = k.sched.running in
      let k1 = release_all t k in
      let freed = release_all-Frees t k h in
      let same = release_all-running t k in
      let x = leave_thread-Exited parent k1.sched (λ e. ne (sym same ∙ e)) freed.0.placed in
      let o = leave_thread parent k1.sched in
      rw n (
        left_in-Exits parent k k1 o (==→ne t main_tid n) freed.0 freed.1 freed.2 (
          subst (λ q. Exited t q o) (queue_after parent k)
            (subst (λ (u : ℕ). Exited u (ready_after parent k1.sched) o) same x)))
]
