-- ===== src/Thread/Lock/Held.antt =====
-- The locks of src/modified/sys/thread.c: what a thread holds is what it has acquired and not yet
-- released.
use unix_like_operating_syst.Base.{
  ℕ, ◌+◌, ◌%◌, ◌^◌, ◌<◌, ◌≡◌, ◌≢◌, refl, sym, ap, ◌∙◌, ◌⊎◌, inl, inr, false, Option, none, some,
  List, ◌∷◌, arith, ◌==◌, if◌then◌else◌, ==→eq, Bool-cases, put,
}
use mathlib.Core.Path.{subst, fun_ext}
use unix_like_operating_syst.Thread.Sched.{Sched, condition_wait, idle_tid}
use unix_like_operating_syst.Thread.Sched.Placed.{occurs, IsPlaced, put_cases}
use unix_like_operating_syst.Thread.Sched.Wait.{Waits, condition_wait-Switched}
use unix_like_operating_syst.Thread.Lock.{
  Locks, owned_by, Acquire, acquired, waits, stuck, waits_in, lock_acquire, acquire_from,
}

abbrev pub Counted : Option ℕ → ℕ → Type 0
Counted none n = n ≡ 0
Counted (some _) n = 0 < n

-- A lock is once on its owner's list and on no other, and its count is positive while it has an
-- owner, and zero while it has none.
pub record IsHeld (k : Locks) : Type 0 where
  pub placed : IsPlaced k.sched
  pub listed : (l t : ℕ) → occurs l (k.held t) ≡ (if owned_by (k.owner l) t then 1 else 0)
  pub counted : (l : ℕ) → Counted (k.owner l) (k.cnt l)

-- The caller gets the lock only where it is free or the caller's already; its count goes up by one
-- and nothing else changes. Otherwise the caller waits for the lock's release behind the other
-- waiters, the first ready thread runs, and the locks are as they were.
abbrev pub Acquires : ℕ → Locks → Acquire → Type 0
Acquires l k (acquired k') =
    IsHeld k'
    × ((k.owner l ≡ none) ⊎ (k.owner l ≡ some k.sched.running))
    × (k'.owner ≡ put k.owner l (some k.sched.running))
    × (k'.cnt ≡ put k.cnt l (k.cnt l + 1))
    × (k'.sched ≡ k.sched)
Acquires l k (waits k') =
    IsHeld k'
    × (owned_by (k.owner l) k.sched.running ≡ false)
    × ((k'.owner ≡ k.owner) × (k'.cnt ≡ k.cnt) × (k'.held ≡ k.held))
    × Waits (k.release l) k.sched (some k'.sched)
Acquires l k stuck = ⊥

-- A thread's list with one more lock, which had no owner.
listed-acquire :
    (owner : ℕ → Option ℕ) (held : ℕ → List ℕ) (l t m u : ℕ)
    → ((m u : ℕ) → occurs m (held u) ≡ (if owned_by (owner m) u then 1 else 0))
    → owner l ≡ none
    → occurs m (put held t (l ∷ held t) u) ≡ (if owned_by (put owner l (some t) m) u then 1 else 0)
listed-acquire owner held l t m u h free = elim (put_cases owner l (some t) m) [
  | inl e ↦
      let absent : (v : ℕ) → occurs m (held v) ≡ 0 = λ v.
        h m v ∙ ap (λ (o : Option ℕ). if owned_by o v then 1 else 0) (ap owner (sym e.1) ∙ free) in
      ap (occurs m) refl
      ∙ (rw e.2 (elim (put_cases held t (l ∷ held t) u) [
        | inl f ↦ ap (occurs m) f.2 ∙ (rw (f.0, e.0, absent t) (omega arith))
        | inr n ↦ ap (occurs m) n.2 ∙ (rw (n.0, absent u) refl)
      ]))
  | inr n ↦ rw n.2 (elim (put_cases held t (l ∷ held t) u) [
    | inl f ↦ ap (occurs m) f.2 ∙ (rw (n.0, h m t, f.1) (omega arith))
    | inr o ↦ ap (occurs m) o.2 ∙ h m u
  ])
]

pub Counted-put :
    (owner : ℕ → Option ℕ) (cnt : ℕ → ℕ) (l : ℕ) (o : Option ℕ) (n : ℕ)
    → ((m : ℕ) → Counted (owner m) (cnt m))
    → Counted o n
    → (m : ℕ) → Counted (put owner l o m) (put cnt l n m)
Counted-put owner cnt l o n h c m = elim (put_cases owner l o m) [
  | inl e ↦ rw e.0 c
  | inr e ↦ rw e.0 (h m)
]

pub put_self : {A : Type 0} (f : ℕ → A) (l : ℕ) (a : A) → f l ≡ a → f ≡ put f l a
put_self f l a e =
    fun_ext
      (λ m. elim (put_cases f l a m) [ inl y ↦ ap f (sym y.1) ∙ e ∙ sym y.2 | inr n ↦ sym n.2 ])

waits_in-Acquires :
    (l u : ℕ) (k : Locks) (o : Option Sched)
    → IsHeld k
    → k.owner l ≡ some u
    → (u == k.sched.running) ≡ false
    → Waits (k.release l) k.sched o
    → Acquires l k (waits_in k o)
unfolding waits_in
waits_in-Acquires l u k none h e n w = w
waits_in-Acquires l u k (some s) h e n w = (
  record { placed = w.4; listed = h.listed; counted = h.counted },
  ap (λ (o : Option ℕ). owned_by o k.sched.running) e ∙ n,
  (refl, refl, refl),
  w,
)

acquire_from-Acquires :
    (o : Option ℕ) (l : ℕ) (k : Locks)
    → k.owner l ≡ o
    → k.sched.running ≢ idle_tid
    → k.cnt l + 1 < 2 ^ 64
    → IsHeld k
    → Acquires l k (acquire_from o l k)
unfolding acquire_from
acquire_from-Acquires none l k e ne room h =
    let t : ℕ = k.sched.running in
    let free : k.cnt l ≡ 0 = subst (λ (x : Option ℕ). Counted x (k.cnt l)) e (h.counted l) in
    (
      record {
        placed = h.placed;
        listed = λ m u. listed-acquire k.owner k.held l t m u h.listed e;
        counted = Counted-put k.owner k.cnt l (some t) 1 h.counted (omega arith);
      },
      inl e,
      refl,
      ap (λ (n : ℕ). put k.cnt l n) (omega (arith, free)),
      refl,
    )
acquire_from-Acquires (some u) l k e ne room h = elim (Bool-cases (u == k.sched.running)) [
  | inl y ↦
      let mine : k.owner l ≡ some k.sched.running = e ∙ ap some (==→eq u k.sched.running y) in
      let same : k.owner ≡ put k.owner l (some k.sched.running) =
        put_self k.owner l (some k.sched.running) mine in
      let more : (m : ℕ)
          → Counted (put k.owner l (some k.sched.running) m) (put k.cnt l (k.cnt l + 1) m) =
        Counted-put k.owner k.cnt l (some k.sched.running) (k.cnt l + 1) h.counted (omega arith) in
      let whole : (k.cnt l + 1) % 2 ^ 64 ≡ k.cnt l + 1 = omega (arith, room) in
      rw (y, whole)
        (
          record {
            placed = h.placed;
            listed = h.listed;
            counted = λ m.
                subst (λ (f : ℕ → Option ℕ). Counted (f m) (put k.cnt l (k.cnt l + 1) m)) (sym same)
                  (more m);
          },
          inr mine,
          same,
          refl,
          refl,
        )
  | inr n ↦ rw n (
      waits_in-Acquires l u k (condition_wait (k.release l) k.sched) h e n
        (condition_wait-Switched (k.release l) k.sched ne h.placed))
]

-- Where every thread is in its place and each lock is on its owner's list with a count of its
-- holds, one look at a lock by `lock_acquire`, in any thread but the idle one and where the count of
-- the lock has room for one more in 64 bits, gives the caller the lock only where it is free or the caller's already, so that two threads never have it; then its
-- owner is the caller, its count goes up by one, and no other lock changes. Otherwise the caller
-- stands behind the other waiters for the lock's release, the first ready thread runs, and no lock
-- changes. In both cases the lists
-- still hold what each thread owns.
pub lock_acquire-Acquires :
    (l : ℕ) (k : Locks)
    → k.sched.running ≢ idle_tid
    → k.cnt l + 1 < 2 ^ 64
    → IsHeld k
    → Acquires l k (lock_acquire l k)
unfolding lock_acquire
lock_acquire-Acquires l k ne room h = acquire_from-Acquires (k.owner l) l k refl ne room h
