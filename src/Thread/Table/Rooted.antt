-- ===== src/Thread/Table/Rooted.antt =====
-- Parents in the thread table of src/modified/sys/thread.c: no thread of the table points to a thread
-- that is not in it.
use unix_like_operating_syst.Base.{
  ℕ, ◌≤◌, ◌≡◌, ◌≢◌, refl, sym, ap, ◌∙◌, ◌⊎◌, inl, inr, false, Option, none, some, arith, ◌==◌, put,
  Bool-cases, ne→==, ==→ne,
}
use mathlib.Core.Path.{fun_ext}
use unix_like_operating_syst.Thread.Table.{
  Thread, Threads, max_threads, is, is_free, adopt, parent_of, reparent, thread_reclaim,
}
use unix_like_operating_syst.Thread.Table.Slots.{reparent-at}

-- The main thread has no parent, the parent of every other thread is in the table, and the table
-- has `NTHR` slots.
pub record IsRooted (tab : Threads) : Type 0 where
  pub main : parent_of (tab 0) ≡ none
  pub rooted : (i p : ℕ) → parent_of (tab i) ≡ some p → is_free (tab p) ≡ false
  pub bounded : (i : ℕ) → max_threads ≤ i → tab i ≡ none

adopt_orphan :
    (tid : ℕ) (parent : Option ℕ) (c : Option Thread) → parent_of c ≡ none → adopt tid parent c ≡ c
adopt_orphan tid parent none e = refl
adopt_orphan tid parent (some c) e = simp e refl

-- The table after a reclaim, as one description: the children of the thread are its parent's, and
-- its slot is free.
abbrev pub Reclaimed : ℕ → Threads → Threads
Reclaimed tid tab = put (λ i. adopt tid (parent_of (tab tid)) (tab i)) tid none

reparent-all :
    (tid : ℕ) (parent : Option ℕ) (tab : Threads)
    → IsRooted tab
    → reparent tid parent max_threads tab ≡ (λ i. adopt tid parent (tab i))
reparent-all tid parent tab h = fun_ext (λ i. elim (reparent-at tid parent max_threads tab i) [
  | inl e ↦ e.2
  | inr e ↦ e.1 ∙ (elim e.0 [
    | inl z ↦ sym (adopt_orphan tid parent (tab i) (ap (λ j. parent_of (tab j)) z ∙ h.main))
    | inr le ↦ rw (h.bounded i le) refl
  ])
])

pub thread_reclaim_lem :
    (tid : ℕ) (tab : Threads) → IsRooted tab → thread_reclaim tid tab ≡ Reclaimed tid tab
unfolding thread_reclaim
thread_reclaim_lem tid tab h =
    ap (λ (f : Threads). put f tid none) (reparent-all tid (parent_of (tab tid)) tab h)

adopt-free :
    (tid : ℕ) (parent : Option ℕ) (c : Option Thread) → is_free (adopt tid parent c) ≡ is_free c
adopt-free tid parent none = refl
adopt-free tid parent (some c) = ground arith

-- The parent of a thread after its parent may have been reclaimed.
adopt-parent :
    (tid : ℕ) (parent : Option ℕ) (c : Option Thread) (p : ℕ)
    → parent_of (adopt tid parent c) ≡ some p
    → (parent ≡ some p) ⊎ ((parent_of c ≡ some p) × (p ≢ tid))
adopt-parent tid parent none p e = cc e
adopt-parent tid parent (some c) p e = elim (Bool-cases (is c.parent tid)) [
  | inl y ↦ inl (simp y at e)
  | inr n ↦
      let kept : c.parent ≡ some p = simp n at e in
      inr (kept, ==→ne p tid (ap (λ o. is o tid) (sym kept) ∙ n))
]

-- A slot other than the reclaimed one stays in use.
Reclaimed-used :
    (tid : ℕ) (tab : Threads) (p : ℕ)
    → p ≢ tid
    → is_free (tab p) ≡ false
    → is_free (Reclaimed tid tab p) ≡ false
Reclaimed-used tid tab p ne e =
    rw (ne→== tid p (λ x. ne (sym x))) (adopt-free tid (parent_of (tab tid)) (tab p) ∙ e)

no_parent : (p : ℕ) → parent_of none ≢ some p
no_parent p e = cc e

pub Reclaimed-IsRooted :
    (tid : ℕ) (tab : Threads)
    → tid ≢ 0
    → parent_of (tab tid) ≢ some tid
    → IsRooted tab
    → IsRooted (Reclaimed tid tab)
Reclaimed-IsRooted tid tab ne own h =
    let up : Option ℕ = parent_of (tab tid) in
    record {
      main = rw (ne→== tid 0 ne) (ap parent_of (adopt_orphan tid up (tab 0) h.main) ∙ h.main);
      rooted = λ i p e. elim (Bool-cases (tid == i)) [
        | inl y ↦ absurd (no_parent p (rw y at e))
        | inr n ↦ elim (adopt-parent tid up (tab i) p (rw n at e)) [
          | inl q ↦ Reclaimed-used tid tab p (λ x. own (q ∙ ap some x)) (h.rooted tid p q)
          | inr q ↦ Reclaimed-used tid tab p q.1 (h.rooted i p q.0)
        ]
      ];
      bounded = λ i le. elim (Bool-cases (tid == i)) [
        | inl y ↦ rw y refl
        | inr n ↦ rw (n, h.bounded i le) refl
      ];
    }
