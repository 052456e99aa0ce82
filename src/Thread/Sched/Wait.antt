-- ===== src/Thread/Sched/Wait.antt =====
-- Waiting for a condition, in src/modified/sys/thread.c.
use unix_like_operating_syst.Base.{
  ℕ, ◌+◌, ◌≡◌, ◌≢◌, refl, sym, ap, ◌∙◌, inl, inr, List, [], ◌∷◌, ◌++◌, arith, ◌==◌, if◌then◌else◌,
  ne→==, put, Option, none, some,
}
use unix_like_operating_syst.Thread.Sched.{
  waiting, self, Sched, idle_tid, suspend, start_wait, condition_wait,
}
use unix_like_operating_syst.Thread.Sched.Placed.{
  occurs, IsQueued, IsPlaced, IsLeaving, Switched, occurs-append, put_cases, suspend-Switched,
}

-- How often a thread stands on the lists after one more wait.
occurs-wait :
    (wl : ℕ → List ℕ) (c t i d : ℕ)
    → occurs i (put wl c (wl c ++ (t ∷ [])) d)
      ≡ occurs i (wl d) + (if t == i then (if c == d then 1 else 0) else 0)
occurs-wait wl c t i d = elim (put_cases wl c (wl c ++ (t ∷ [])) d) [
  | inl e ↦
      let same : occurs i (wl c) ≡ occurs i (wl d) = ap (λ k. occurs i (wl k)) e.1 in
      let grown : occurs i (wl c ++ (t ∷ [])) ≡ occurs i (wl c) + ((if t == i then 1 else 0) + 0) =
        occurs-append i (wl c) (t ∷ []) in
      ap (occurs i) e.2 ∙ grown ∙ (rw e.0 (omega (arith, same)))
  | inr n ↦ ap (occurs i) n.2 ∙ (rw n.0 (ground arith))
]

-- The lists of the running thread, on none of which it stands.
start_wait-IsQueued :
    (c : ℕ) (s : Sched) → s.state s.running ≡ self → IsQueued s → IsQueued (start_wait c s)
unfolding start_wait
start_wait-IsQueued c s runs h = record {
  readied = λ i. elim (put_cases s.state s.running waiting i) [
    | inl e ↦ rw (e.2, h.readied i, ap s.state (sym e.1), runs) refl
    | inr n ↦ rw n.2 (h.readied i)
  ];
  waited = λ i d. elim (put_cases s.state s.running waiting i) [
    | inl e ↦
        rw
          (
            occurs-wait s.wait_list c s.running i d,
            e.2,
            e.0,
            h.waited i d,
            ap s.state (sym e.1),
            runs,
          )
          (omega arith)
    | inr n ↦ rw (occurs-wait s.wait_list c s.running i d, n.2, n.0, h.waited i d) (omega arith)
  ];
}

start_wait-IsLeaving :
    (c : ℕ) (s : Sched) → s.running ≢ idle_tid → IsPlaced s → IsLeaving (start_wait c s)
unfolding start_wait
start_wait-IsLeaving c s ne h = record {
  stopped = λ i. elim (put_cases s.state s.running waiting i) [
    | inl e ↦ rw e.2 (λ x. cc x)
    | inr n ↦ rw n.2 (h.alone i (λ x. n.1 (sym x)))
  ];
  queued = start_wait-IsQueued c s h.runs h.queued;
  idle = rw (ne→== s.running idle_tid ne) (elim h.idles [ inl e ↦ absurd (ne e) | inr e ↦ e ]);
}

-- What a wait promises: the caller waits behind the other waiters of the condition, the first ready
-- thread runs, and nothing else changes.
abbrev pub Waits : ℕ → Sched → Option Sched → Type 0
Waits c s none = ⊥
Waits c s (some s') =
    (s.ready_list ≡ s'.running ∷ s'.ready_list)
    × (s'.state ≡ put (put s.state s.running waiting) s'.running self)
    × (s'.wait_list ≡ put s.wait_list c (s.wait_list c ++ (s.running ∷ [])))
    × (s'.wait_cond ≡ put s.wait_cond s.running (some c))
    × IsPlaced s'

as_Waits : (c : ℕ) (s : Sched) (o : Option Sched) → Switched (start_wait c s) o → Waits c s o
unfolding start_wait
as_Waits c s none w = w
as_Waits c s (some s') w = (w.0, w.1, w.2.0, w.2.1, w.3)

-- Where every thread is in the one place that its state names, and the idle thread is ready or
-- running, `condition_wait`, called by any thread but the idle one, puts the caller behind the other
-- waiters of the condition and runs the first thread of the ready list; the caller waits then for
-- this condition, no other list and no other thread's state but that of the one that runs changes,
-- and every thread is again in the one place that its state names.
pub condition_wait-Switched :
    (c : ℕ) (s : Sched) → s.running ≢ idle_tid → IsPlaced s → Waits c s (condition_wait c s)
unfolding condition_wait
condition_wait-Switched c s ne h =
    as_Waits c s (suspend (start_wait c s))
      (suspend-Switched (start_wait c s) (start_wait-IsLeaving c s ne h))
