-- ===== src/Thread/Sched/Robin.antt =====
-- Threads of src/modified/sys/thread.c that only yield run in turn.
use unix_like_operating_syst.Base.{
  ℕ, zero, suc, ◌≡◌, sym, ap, ◌∙◌, Option, none, some, List, [], ◌∷◌, ◌++◌, length, append_assoc,
}
use mathlib.Core.Path.{subst}
use unix_like_operating_syst.Thread.Sched.{Sched, yield}
use unix_like_operating_syst.Thread.Sched.Placed.{IsPlaced, Yields, yield-Switched}

abbrev pub and_then : Option Sched → (Sched → Option Sched) → Option Sched
and_then none f = none
and_then (some s) f = f s

-- The scheduler after so many yields, by whichever threads run.
abbrev pub yields : ℕ → Sched → Option Sched
yields zero s = some s
yields (suc n) s = and_then (yield s) (yields n)

-- The scheduler runs this thread, with that ready list.
abbrev pub Runs : ℕ → List ℕ → Option Sched → Type 0
Runs t queue none = ⊥
Runs t queue (some s) = IsPlaced s × (s.running ≡ t) × (s.ready_list ≡ queue)

first_of : {t u : ℕ} {ts us : List ℕ} → t ∷ ts ≡ u ∷ us → (t ≡ u) × (ts ≡ us)
first_of e = (cc e, cc e)

yield_step :
    (s : Sched) (t : ℕ) (rest : List ℕ) (o : Option Sched)
    → s.ready_list ≡ t ∷ rest
    → Yields s o
    → Runs t (rest ++ (s.running ∷ [])) o
yield_step s t rest none e h = h
yield_step s t rest (some s') e h =
    let both = first_of (sym h.0 ∙ ap (λ l. l ++ (s.running ∷ [])) e) in (h.3, both.0, both.1)

yields-next :
    (n x t : ℕ) (rest goal : List ℕ) (o : Option Sched)
    → Runs x rest o
    → ((s' : Sched)
        → IsPlaced s'
        → s'.running ≡ x
        → s'.ready_list ≡ rest
        → Runs t goal (yields n s'))
    → Runs t goal (and_then o (yields n))
yields-next n x t rest goal none h k = absurd h
yields-next n x t rest goal (some s') h k = k s' h.0 h.1 h.2

-- Where every thread is in the one place that its state names, and the idle thread is ready or
-- running, the scheduler is fair: where the running thread and those before a thread on the ready
-- list do nothing but yield, that thread runs after one yield for each thread before it and one
-- more; the threads behind it are then first on the ready list, and those that have run stand
-- behind them in the order in which they ran.
pub yields-Runs :
    (s : Sched) (t : ℕ) (pre post : List ℕ)
    → IsPlaced s
    → s.ready_list ≡ pre ++ (t ∷ post)
    → Runs t (post ++ (s.running ∷ pre)) (yields (suc (length pre)) s)
yields-Runs s t [] post h e =
    yields-next 0 t t (post ++ (s.running ∷ [])) (post ++ (s.running ∷ [])) (yield s)
      (yield_step s t post (yield s) e (yield-Switched s h)) (λ s' p r l. (p, r, l))
yields-Runs s t (x ∷ pre) post h e =
    let rest : List ℕ = (pre ++ (t ∷ post)) ++ (s.running ∷ []) in
    yields-next (suc (length pre)) x t rest (post ++ (s.running ∷ x ∷ pre)) (yield s)
      (yield_step s x (pre ++ (t ∷ post)) (yield s) e (yield-Switched s h))
      (λ s' p r l.
        let ih =
          yields-Runs s' t pre (post ++ (s.running ∷ [])) p
            (l ∙ append_assoc pre (t ∷ post) (s.running ∷ [])) in
        let queue : (post ++ (s.running ∷ [])) ++ (s'.running ∷ pre)
            ≡ post ++ (s.running ∷ x ∷ pre) =
          append_assoc post (s.running ∷ []) (s'.running ∷ pre)
          ∙ ap (λ y. post ++ (s.running ∷ y ∷ pre)) r in
        subst (λ q. Runs t q (yields (suc (length pre)) s')) queue ih)
