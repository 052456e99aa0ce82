-- ===== src/Thread/Sched/Exit.antt =====
-- The end of a thread's exit in src/modified/sys/thread.c, behind the release of its locks.
use unix_like_operating_syst.Base.{
  ℕ, ◌≡◌, ◌≢◌, refl, sym, ap, ◌∙◌, inl, inr, Option, none, some, List, ◌∷◌, ◌++◌, eq→==, ne→==, put,
}
use mathlib.Core.Path.{subst}
use unix_like_operating_syst.Thread.Sched.{
  ThreadState, self, ready, exited, Sched, idle_tid, suspend, condition_broadcast, leave_thread,
}
use unix_like_operating_syst.Thread.Sched.Placed.{
  on_cond, IsQueued, IsPlaced, IsLeaving, Switched, put_cases, suspend-Switched, head-ready,
}
use unix_like_operating_syst.Thread.Sched.Broadcast.{
  broadcast-other, broadcast-not_self, broadcast-idle, broadcast-lists, broadcast-IsQueued,
}

broadcast-IsLeaving : (c : ℕ) (s : Sched) → IsLeaving s → IsLeaving (condition_broadcast c s)
broadcast-IsLeaving c s h = record {
  stopped = λ i. broadcast-not_self c s i (h.stopped i);
  queued = broadcast-IsQueued c s h.queued;
  idle = broadcast-idle c s h.queued h.idle;
}

-- The running thread, marked exited.
abbrev leave : Sched → Sched
leave s = record s { state = put s.state s.running exited }

leave-IsLeaving : (s : Sched) → s.running ≢ idle_tid → IsPlaced s → IsLeaving (leave s)
leave-IsLeaving s ne h = record {
  stopped = λ i. elim (put_cases s.state s.running exited i) [
    | inl e ↦ rw e.2 (λ x. cc x)
    | inr n ↦ rw n.2 (h.alone i (λ x. n.1 (sym x)))
  ];
  queued = record {
    readied = λ i. elim (put_cases s.state s.running exited i) [
      | inl e ↦ rw (e.2, h.queued.readied i, ap s.state (sym e.1), h.runs) refl
      | inr n ↦ rw n.2 (h.queued.readied i)
    ];
    waited = λ i d. elim (put_cases s.state s.running exited i) [
      | inl e ↦ rw (e.2, h.queued.waited i d, ap s.state (sym e.1), h.runs) refl
      | inr n ↦ rw n.2 (h.queued.waited i d)
    ];
  };
  idle = rw (ne→== s.running idle_tid ne) (elim h.idles [ inl e ↦ absurd (ne e) | inr e ↦ e ]);
}

-- What an exit promises: another thread runs, and the one that left has exited.
abbrev pub Exited : ℕ → List ℕ → Option Sched → Type 0
Exited t queue none = ⊥
Exited t queue (some s') =
    IsPlaced s' × (s'.state t ≡ exited) × (queue ≡ s'.running ∷ s'.ready_list)

exited-not_first :
    (s : Sched) (t u : ℕ) (rest : List ℕ)
    → IsQueued s
    → s.state t ≡ exited
    → s.ready_list ≡ u ∷ rest
    → t ≢ u
exited-not_first s t u rest q e l = λ same.
    let r = head-ready s u rest l q in
    let clash : exited ≡ ready = sym e ∙ ap s.state same ∙ r.0 in cc clash

Switched-Exited :
    (s : Sched) (t : ℕ) (o : Option Sched)
    → IsQueued s
    → s.state t ≡ exited
    → Switched s o
    → Exited t s.ready_list o
Switched-Exited s t none q e h = h
Switched-Exited s t (some s') q e h = (
  h.3,
  ap (λ (f : ℕ → ThreadState). f t) h.1 ∙ (elim (put_cases s.state s'.running self t) [
    | inl y ↦ absurd (exited-not_first s t s'.running s'.ready_list q e h.0 (sym y.1))
    | inr n ↦ n.2 ∙ e
  ]),
  h.0,
)

-- The threads that are ready when a thread has left: its parent's waiters are behind the others.
abbrev pub ready_after : Option ℕ → Sched → List ℕ
ready_after none s = s.ready_list
ready_after (some c) s = s.ready_list ++ s.wait_list c

-- Where every thread is in the one place that its state names, and the idle thread is ready or
-- running, the end of an exit, of any thread but the idle one, marks it exited, puts the waiters for its parent's `child_exit` behind the ready threads, and runs the
-- first ready thread; every thread is again in the one place that its state names.
pub leave_thread-Exited :
    (parent : Option ℕ) (s : Sched)
    → s.running ≢ idle_tid
    → IsPlaced s
    → Exited s.running (ready_after parent s) (leave_thread parent s)
unfolding leave_thread
leave_thread-Exited none s ne h =
    let l = leave-IsLeaving s ne h in
    Switched-Exited (leave s) s.running (suspend (leave s)) l.queued
      (rw (eq→== s.running s.running refl) refl) (suspend-Switched (leave s) l)
leave_thread-Exited (some c) s ne h =
    let l = leave-IsLeaving s ne h in
    let s' = condition_broadcast c (leave s) in
    let left : (leave s).state s.running ≡ exited = rw (eq→== s.running s.running refl) refl in
    let gone : s'.state s.running ≡ exited =
      broadcast-other c (leave s) s.running l.queued
        (ap (λ x. on_cond c x (s.wait_cond s.running)) left)
      ∙ left in
    let b = broadcast-IsLeaving c (leave s) l in
    subst (λ q. Exited s.running q (suspend s')) (broadcast-lists c (leave s)).1
      (Switched-Exited s' s.running (suspend s') b.queued gone (suspend-Switched s' b))
