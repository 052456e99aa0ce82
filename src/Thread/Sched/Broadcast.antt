-- ===== src/Thread/Sched/Broadcast.antt =====
-- Waking all waiters of a condition, in src/modified/sys/thread.c.
use unix_like_operating_syst.Base.{
  ℕ, ◌≡◌, ◌≢◌, refl, sym, ap, ◌∙◌, ◌⊎◌, inl, inr, Option, none, some, List, [], ◌∷◌, ◌++◌, arith,
  ◌==◌, eq→==, ==→eq, Bool-cases, put, zero, suc,
}
use unix_like_operating_syst.Thread.Sched.{
  ThreadState, uninitialized, waiting, self, ready, exited, Sched, idle_tid, set_ready,
  condition_broadcast,
}
use unix_like_operating_syst.Thread.Sched.Placed.{
  occurs, on_ready, on_cond, IsQueued, IsPlaced, occurs-append, put_cases,
}

-- What the walk over the waiters makes of a thread.
set_ready-other :
    (ts : List ℕ) (s : Sched) (i : ℕ)
    → occurs i ts ≡ 0
    → ((set_ready ts s).state i ≡ s.state i) × ((set_ready ts s).wait_cond i ≡ s.wait_cond i)
unfolding set_ready
set_ready-other [] s i e = (refl, refl)
set_ready-other (t ∷ ts) s i e = elim (Bool-cases (t == i)) [
  | inl y ↦ absurd (omega (arith, rw y at e))
  | inr n ↦
      let rest : occurs i ts ≡ 0 = omega (arith, rw n at e) in
      let h =
        set_ready-other ts
          (record s { state = put s.state t ready; wait_cond = put s.wait_cond t none }) i rest in
      rw n at h
]

set_ready-in :
    (ts : List ℕ) (s : Sched) (i : ℕ)
    → (occurs i ts ≢ 0) ⊎ (s.state i ≡ ready)
    → (set_ready ts s).state i ≡ ready
unfolding set_ready
set_ready-in [] s i (inl ne) = absurd (ne refl)
set_ready-in [] s i (inr e) = e
set_ready-in (t ∷ ts) s i h =
    set_ready-in ts (record s { state = put s.state t ready; wait_cond = put s.wait_cond t none }) i
      (elim (put_cases s.state t ready i) [
        | inl y ↦ inr y.2
        | inr n ↦ elim h [
          | inl ne ↦ inl (λ z. ne (rw n.0 (omega (arith, z))))
          | inr e ↦ inr (n.2 ∙ e)
        ]
      ])

set_ready-lists :
    (ts : List ℕ) (s : Sched)
    → ((set_ready ts s).ready_list ≡ s.ready_list)
      × ((set_ready ts s).wait_list ≡ s.wait_list)
      × ((set_ready ts s).running ≡ s.running)
unfolding set_ready
set_ready-lists [] s = (refl, refl, refl)
set_ready-lists (t ∷ ts) s =
    set_ready-lists ts
      (record s { state = put s.state t ready; wait_cond = put s.wait_cond t none })

on_cond-pos :
    (c : ℕ) (x : ThreadState) (w : Option ℕ) → on_cond c x w ≢ 0 → (x ≡ waiting) × (w ≡ some c)
on_cond-pos c waiting (some d) ne = elim (Bool-cases (d == c)) [
  | inl y ↦ (refl, ap some (==→eq d c y))
  | inr n ↦ absurd (ne (rw n refl))
]
on_cond-pos c waiting none ne = absurd (ne refl)
on_cond-pos c uninitialized w ne = absurd (ne refl)
on_cond-pos c self w ne = absurd (ne refl)
on_cond-pos c ready w ne = absurd (ne refl)
on_cond-pos c exited w ne = absurd (ne refl)

zero-cases : (n : ℕ) → (n ≡ 0) ⊎ (n ≢ 0)
zero-cases zero = inl refl
zero-cases (suc n) = inr (λ e. omega (arith, e))

-- A waiter is on the condition's list once, and nowhere else.
waiter_lem :
    (c : ℕ) (s : Sched) (i : ℕ)
    → IsQueued s
    → occurs i (s.wait_list c) ≢ 0
    → (s.state i ≡ waiting) × (s.wait_cond i ≡ some c)
waiter_lem c s i h ne = on_cond-pos c (s.state i) (s.wait_cond i) (λ z. ne (h.waited i c ∙ z))

broadcast-readied :
    (c : ℕ) (s : Sched) (i : ℕ)
    → IsQueued s
    → occurs i (s.ready_list ++ s.wait_list c) ≡ on_ready ((set_ready (s.wait_list c) s).state i)
broadcast-readied c s i h =
    occurs-append i s.ready_list (s.wait_list c) ∙ (elim (zero-cases (occurs i (s.wait_list c))) [
      | inl z ↦ rw (z, (set_ready-other (s.wait_list c) s i z).0, h.readied i) (omega arith)
      | inr ne ↦
          let w = waiter_lem c s i h ne in
          rw
            (
              set_ready-in (s.wait_list c) s i (inl ne),
              h.waited i c,
              h.readied i,
              w.0,
              w.1,
              eq→== c c refl,
            )
            (omega arith)
    ])

broadcast-waited :
    (c : ℕ) (s : Sched) (i d : ℕ)
    → IsQueued s
    → let s' = set_ready (s.wait_list c) s in
      occurs i (put s.wait_list c [] d) ≡ on_cond d (s'.state i) (s'.wait_cond i)
broadcast-waited c s i d h = elim (zero-cases (occurs i (s.wait_list c))) [
  | inl z ↦
      let same = set_ready-other (s.wait_list c) s i z in
      rw (same.0, same.1)
        (elim (put_cases s.wait_list c [] d) [
          | inl e ↦
              ap (occurs i) e.2 ∙ sym z ∙ ap (λ k. occurs i (s.wait_list k)) e.1 ∙ h.waited i d
          | inr n ↦ ap (occurs i) n.2 ∙ h.waited i d
        ])
  | inr ne ↦
      let w = waiter_lem c s i h ne in
      rw (set_ready-in (s.wait_list c) s i (inl ne)) (elim (put_cases s.wait_list c [] d) [
        | inl e ↦ ap (occurs i) e.2
        | inr n ↦ ap (occurs i) n.2 ∙ h.waited i d ∙ (rw (w.0, w.1, n.0) refl)
      ])
]

pub broadcast-IsQueued : (c : ℕ) (s : Sched) → IsQueued s → IsQueued (condition_broadcast c s)
unfolding condition_broadcast
broadcast-IsQueued c s h =
    let same = set_ready-lists (s.wait_list c) s in
    record {
      readied = λ i. rw same.0 (broadcast-readied c s i h);
      waited = λ i d. rw same.1 (broadcast-waited c s i d h);
    }

-- A thread that does not wait is not touched by a broadcast.
pub broadcast-other :
    (c : ℕ) (s : Sched) (i : ℕ)
    → IsQueued s
    → on_cond c (s.state i) (s.wait_cond i) ≡ 0
    → (condition_broadcast c s).state i ≡ s.state i
unfolding condition_broadcast
broadcast-other c s i h z = (set_ready-other (s.wait_list c) s i (h.waited i c ∙ z)).0

not_both : ready ≢ self
not_both e = cc e

pub broadcast-not_self :
    (c : ℕ) (s : Sched) (i : ℕ) → s.state i ≢ self → (condition_broadcast c s).state i ≢ self
unfolding condition_broadcast
broadcast-not_self c s i ne = elim (zero-cases (occurs i (s.wait_list c))) [
  | inl z ↦ λ e. ne (sym (set_ready-other (s.wait_list c) s i z).0 ∙ e)
  | inr w ↦
      let r : (set_ready (s.wait_list c) s).state i ≡ ready =
        set_ready-in (s.wait_list c) s i (inl w) in
      λ e. not_both (sym r ∙ e)
]

pub broadcast-idle :
    (c : ℕ) (s : Sched)
    → IsQueued s
    → s.state idle_tid ≡ ready
    → (condition_broadcast c s).state idle_tid ≡ ready
broadcast-idle c s h e =
    broadcast-other c s idle_tid h (ap (λ x. on_cond c x (s.wait_cond idle_tid)) e) ∙ e

-- What a broadcast promises: the waiters, in their order, behind the ready threads.
abbrev pub Woken : ℕ → Sched → Sched → Type 0
Woken c s s' =
    IsPlaced s'
    × (s'.running ≡ s.running)
    × (s'.ready_list ≡ s.ready_list ++ s.wait_list c)
    × (s'.wait_list ≡ put s.wait_list c [])

pub broadcast-lists :
    (c : ℕ) (s : Sched)
    → ((condition_broadcast c s).running ≡ s.running)
      × ((condition_broadcast c s).ready_list ≡ s.ready_list ++ s.wait_list c)
      × ((condition_broadcast c s).wait_list ≡ put s.wait_list c [])
unfolding condition_broadcast
broadcast-lists c s =
    let same = set_ready-lists (s.wait_list c) s in
    (same.2, ap (λ l. l ++ s.wait_list c) same.0, ap (λ (wl : ℕ → List ℕ). put wl c []) same.1)

-- Where every thread is in the one place that its state names, and the idle thread is ready or
-- running, `condition_broadcast` puts all waiters of the condition, in the order in which they
-- came, behind the ready threads, leaves no waiter and changes no other list; the caller runs on,
-- and every thread is again in the one place that its state names.
pub condition_broadcast-Woken :
    (c : ℕ) (s : Sched) → IsPlaced s → Woken c s (condition_broadcast c s)
condition_broadcast-Woken c s h =
    let lists = broadcast-lists c s in
    (
      record {
        runs =
            ap (condition_broadcast c s).state lists.0
            ∙ broadcast-other c s s.running h.queued
                (ap (λ x. on_cond c x (s.wait_cond s.running)) h.runs)
            ∙ h.runs;
        alone = λ i ne. broadcast-not_self c s i (h.alone i (λ e. ne (e ∙ sym lists.0)));
        queued = broadcast-IsQueued c s h.queued;
        idles = elim h.idles [
          | inl e ↦ inl (lists.0 ∙ e)
          | inr e ↦ inr (broadcast-idle c s h.queued e)
        ];
      },
      lists.0,
      lists.1,
      lists.2,
    )
