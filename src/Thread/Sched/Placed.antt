-- ===== src/Thread/Sched/Placed.antt =====
-- Every thread of src/modified/sys/thread.c is in one place: it runs, stands once on the ready list,
-- stands once on the list of the condition it waits for, or has exited.
use unix_like_operating_syst.Base.{
  ℕ, ◌+◌, ◌≡◌, ◌≢◌, refl, sym, ap, ◌∙◌, ◌⊎◌, inl, inr, true, false, Option, none, some, List, [],
  ◌∷◌, ◌++◌, arith, ◌==◌, if◌then◌else◌, eq→==, ne→==, ==→eq, ==→ne, Bool-cases, put,
}
use unix_like_operating_syst.Thread.Sched.{
  ThreadState, uninitialized, waiting, self, ready, exited, Sched, idle_tid, is_self, requeue,
  switch, suspend, yield,
}

-- How often a thread is on a list.
abbrev pub occurs : ℕ → List ℕ → ℕ
occurs i [] = 0
occurs i (t ∷ ts) = (if t == i then 1 else 0) + occurs i ts

-- How often a thread of this state is to be on the ready list.
abbrev pub on_ready : ThreadState → ℕ
on_ready ready = 1
on_ready _ = 0

-- How often it is to be on the list of a condition.
abbrev pub on_cond : ℕ → ThreadState → Option ℕ → ℕ
on_cond c waiting (some d) = if d == c then 1 else 0
on_cond c _ _ = 0

-- Every thread is on the lists that its state asks for, once, and on no other.
pub record IsQueued (s : Sched) : Type 0 where
  pub readied : (i : ℕ) → occurs i s.ready_list ≡ on_ready (s.state i)
  pub waited : (i c : ℕ) → occurs i (s.wait_list c) ≡ on_cond c (s.state i) (s.wait_cond i)

-- The running thread is the only one in the state `self`, each other thread is where its state
-- says, and the idle thread is ready or running.
pub record IsPlaced (s : Sched) : Type 0 where
  pub runs : s.state s.running ≡ self
  pub alone : (i : ℕ) → i ≢ s.running → s.state i ≢ self
  pub queued : IsQueued s
  pub idles : (s.running ≡ idle_tid) ⊎ (s.state idle_tid ≡ ready)

pub occurs-append : (i : ℕ) (ts us : List ℕ) → occurs i (ts ++ us) ≡ occurs i ts + occurs i us
occurs-append i [] us = omega arith
occurs-append i (t ∷ ts) us = omega (arith, occurs-append i ts us)

-- What a store makes of the members of each thread.
pub put_cases :
    {A : Type 0} (f : ℕ → A) (t : ℕ) (a : A) (i : ℕ)
    → (((t == i) ≡ true) × (t ≡ i) × (put f t a i ≡ a))
      ⊎ (((t == i) ≡ false) × (t ≢ i) × (put f t a i ≡ f i))
put_cases f t a i = elim (Bool-cases (t == i)) [
  | inl e ↦ inl (e, ==→eq t i e, rw e refl)
  | inr n ↦ inr (n, ==→ne t i n, rw n refl)
]

-- A thread on no list, queued behind the others.
enqueue-IsQueued :
    (s : Sched) (t : ℕ)
    → s.state t ≡ self
    → IsQueued s
    → IsQueued (record s { state = put s.state t ready; ready_list = s.ready_list ++ (t ∷ []) })
enqueue-IsQueued s t runs h = record {
  readied = λ i. occurs-append i s.ready_list (t ∷ []) ∙ (elim (put_cases s.state t ready i) [
    | inl e ↦ rw (e.2, e.0, h.readied i, ap s.state (sym e.1), runs) refl
    | inr n ↦ rw (n.2, n.0, h.readied i) (omega arith)
  ]);
  waited = λ i c. elim (put_cases s.state t ready i) [
    | inl e ↦ rw (e.2, h.waited i c, ap s.state (sym e.1), runs) refl
    | inr n ↦ rw (n.2, h.waited i c) refl
  ];
}

on_ready-pos : (x : ThreadState) (n : ℕ) → 1 + n ≡ on_ready x → (x ≡ ready) × (n ≡ 0)
on_ready-pos uninitialized n e = absurd (omega (arith, e))
on_ready-pos waiting n e = absurd (omega (arith, e))
on_ready-pos self n e = absurd (omega (arith, e))
on_ready-pos ready n e = (refl, omega (arith, e))
on_ready-pos exited n e = absurd (omega (arith, e))

-- The thread at the head of the ready list is ready, and stands there once.
pub head-ready :
    (s : Sched) (t : ℕ) (rest : List ℕ)
    → s.ready_list ≡ t ∷ rest
    → IsQueued s
    → (s.state t ≡ ready) × (occurs t rest ≡ 0)
head-ready s t rest e h =
    let one : (if t == t then 1 else 0) + occurs t rest ≡ on_ready (s.state t) =
      ap (occurs t) (sym e) ∙ h.readied t in
    on_ready-pos (s.state t) (occurs t rest) (rw (eq→== t t refl) at one)

-- The first ready thread, made the running one.
dequeue-IsQueued :
    (s : Sched) (t : ℕ) (rest : List ℕ)
    → s.ready_list ≡ t ∷ rest
    → IsQueued s
    → IsQueued (record s { running = t; state = put s.state t self; ready_list = rest })
dequeue-IsQueued s t rest e h =
    let at_head = head-ready s t rest e h in
    record {
      readied = λ i. elim (put_cases s.state t self i) [
        | inl y ↦ rw y.2 (ap (λ k. occurs k rest) (sym y.1) ∙ at_head.1)
        | inr n ↦
            let one : occurs i (t ∷ rest) ≡ on_ready (s.state i) =
              ap (occurs i) (sym e) ∙ h.readied i in
            let skip : occurs i rest ≡ occurs i (t ∷ rest) = rw n.0 (omega arith) in
            rw n.2 (skip ∙ one)
      ];
      waited = λ i c. elim (put_cases s.state t self i) [
        | inl y ↦ rw (y.2, h.waited i c, ap s.state (sym y.1), at_head.0) refl
        | inr n ↦ rw (n.2, h.waited i c) refl
      ];
    }

-- The running thread is on its way out, and the idle thread can take over.
pub record IsLeaving (s : Sched) : Type 0 where
  pub stopped : (i : ℕ) → s.state i ≢ self
  pub queued : IsQueued s
  pub idle : s.state idle_tid ≡ ready

-- The switch is to the first ready thread, changes the state of no other, and no list of waiters.
abbrev pub Switched : Sched → Option Sched → Type 0
Switched s none = ⊥
Switched s (some s') =
    (s.ready_list ≡ s'.running ∷ s'.ready_list)
    × (s'.state ≡ put s.state s'.running self)
    × ((s'.wait_list ≡ s.wait_list) × (s'.wait_cond ≡ s.wait_cond))
    × IsPlaced s'

pub switch-Switched :
    (s : Sched) (ts : List ℕ) → s.ready_list ≡ ts → IsLeaving s → Switched s (switch s ts)
unfolding switch
switch-Switched s [] e h =
    let one : occurs idle_tid [] ≡ on_ready (s.state idle_tid) =
      ap (occurs idle_tid) (sym e) ∙ h.queued.readied idle_tid in
    let ready_one : on_ready (s.state idle_tid) ≡ 1 = ap on_ready h.idle in
    absurd (omega (arith, one, ready_one))
switch-Switched s (t ∷ rest) e h = (
  e,
  refl,
  (refl, refl),
  record {
    runs = rw (eq→== t t refl) refl;
    alone = λ i ne. rw (ne→== t i (λ x. ne (sym x))) (h.stopped i);
    queued = dequeue-IsQueued s t rest e h.queued;
    idles = elim (put_cases s.state t self idle_tid) [
      | inl y ↦ inl y.1
      | inr n ↦ inr (n.2 ∙ h.idle)
    ];
  },
)

is_self-not : (x : ThreadState) → x ≢ self → is_self x ≡ false
is_self-not uninitialized ne = refl
is_self-not waiting ne = refl
is_self-not self ne = absurd (ne refl)
is_self-not ready ne = refl
is_self-not exited ne = refl

-- A suspension of a thread that has left the state `self`.
pub suspend-Switched : (s : Sched) → IsLeaving s → Switched s (suspend s)
unfolding suspend requeue
suspend-Switched s h =
    rw (is_self-not (s.state s.running) (h.stopped s.running))
      (switch-Switched s s.ready_list refl h)

requeue-IsLeaving : (s : Sched) → IsPlaced s → IsLeaving (requeue s)
unfolding requeue
requeue-IsLeaving s h = simp h.runs record {
  stopped = λ i. elim (put_cases s.state s.running ready i) [
    | inl e ↦ rw e.2 (λ x. cc x)
    | inr n ↦ rw n.2 (h.alone i (λ x. n.1 (sym x)))
  ];
  queued = enqueue-IsQueued s s.running h.runs h.queued;
  idle = elim (put_cases s.state s.running ready idle_tid) [
    | inl e ↦ e.2
    | inr n ↦ elim h.idles [ inl e ↦ absurd (n.1 e) | inr e ↦ n.2 ∙ e ]
  ];
}

-- What a yield promises: with the caller behind the ready threads, the first of them runs, the
-- caller is ready, and nothing else changes.
abbrev pub Yields : Sched → Option Sched → Type 0
Yields s none = ⊥
Yields s (some s') =
    (s.ready_list ++ (s.running ∷ []) ≡ s'.running ∷ s'.ready_list)
    × (s'.state ≡ put (put s.state s.running ready) s'.running self)
    × ((s'.wait_list ≡ s.wait_list) × (s'.wait_cond ≡ s.wait_cond))
    × IsPlaced s'

requeue-self :
    (s : Sched)
    → s.state s.running ≡ self
    → requeue s ≡ record s {
      state = put s.state s.running ready;
      ready_list = s.ready_list ++ (s.running ∷ []);
    }
unfolding requeue
requeue-self s e = simp e refl

as_Yields : (s : Sched) (o : Option Sched) → IsPlaced s → Switched (requeue s) o → Yields s o
as_Yields s none h w = w
as_Yields s (some s') h w =
    let same = requeue-self s h.runs in
    (
      sym (ap (λ (x : Sched). x.ready_list) same) ∙ w.0,
      w.1 ∙ ap (λ (x : Sched). put x.state s'.running self) same,
      (w.2.0 ∙ ap (λ (x : Sched). x.wait_list) same, w.2.1 ∙ ap (λ (x : Sched). x.wait_cond) same),
      w.3,
    )

-- Where every thread is in the one place that its state names, and the idle thread is ready or
-- running, `running_thread_yield` puts the caller behind the ready threads and runs the first of
-- these; the caller is ready then, no other thread but the one that runs changes its state, no list
-- of waiters changes, and every thread is again in the one place that its state names.
pub yield-Switched : (s : Sched) → IsPlaced s → Yields s (yield s)
unfolding yield suspend
yield-Switched s h =
    as_Yields s (switch (requeue s) (requeue s).ready_list) h
      (switch-Switched (requeue s) (requeue s).ready_list refl (requeue-IsLeaving s h))
