-- ===== src/Thread/Lock/All.antt =====
-- Releasing all locks of a thread that exits, in src/modified/sys/thread.c.
use unix_like_operating_syst.Base.{
  ℕ, ◌≡◌, ◌≢◌, refl, sym, ap, ◌∙◌, ◌⊎◌, inl, inr, true, false, Option, none, some, List, [], ◌∷◌,
  arith, ◌==◌, if◌then◌else◌, eq→==, ne→==, ==→eq, Bool-cases, put,
}
use unix_like_operating_syst.Thread.Sched.{condition_broadcast}
use unix_like_operating_syst.Thread.Sched.Placed.{occurs, IsPlaced, put_cases}
use unix_like_operating_syst.Thread.Sched.Broadcast.{condition_broadcast-Woken}
use unix_like_operating_syst.Thread.Lock.{Locks, owned_by, release_each, release_all}
use unix_like_operating_syst.Thread.Lock.Held.{Counted, IsHeld}

-- The stores for one lock of the walk.
abbrev free_one : ℕ → Locks → Locks
free_one l k = record k {
  sched = condition_broadcast (k.release l) k.sched;
  owner = put k.owner l none;
  cnt = put k.cnt l 0;
}

release_each-other :
    (ls : List ℕ) (k : Locks) (m : ℕ)
    → occurs m ls ≡ 0
    → ((release_each ls k).owner m ≡ k.owner m) × ((release_each ls k).cnt m ≡ k.cnt m)
unfolding release_each
release_each-other [] k m e = (refl, refl)
release_each-other (l ∷ ls) k m e = elim (Bool-cases (l == m)) [
  | inl y ↦ absurd (omega (arith, rw y at e))
  | inr n ↦
      let rest : occurs m ls ≡ 0 = omega (arith, rw n at e) in
      rw n at (release_each-other ls (free_one l k) m rest)
]

release_each-in :
    (ls : List ℕ) (k : Locks) (m : ℕ)
    → (occurs m ls ≢ 0) ⊎ ((k.owner m ≡ none) × (k.cnt m ≡ 0))
    → ((release_each ls k).owner m ≡ none) × ((release_each ls k).cnt m ≡ 0)
unfolding release_each
release_each-in [] k m (inl ne) = absurd (ne refl)
release_each-in [] k m (inr e) = e
release_each-in (l ∷ ls) k m h = release_each-in ls (free_one l k) m (elim (Bool-cases (l == m)) [
  | inl y ↦ inr (rw y (refl, refl))
  | inr n ↦ elim h [ inl ne ↦ inl (λ z. ne (rw n (omega (arith, z)))) | inr e ↦ inr (rw n e) ]
])

release_each-IsPlaced :
    (ls : List ℕ) (k : Locks)
    → IsPlaced k.sched
    → IsPlaced (release_each ls k).sched × ((release_each ls k).held ≡ k.held)
unfolding release_each
release_each-IsPlaced [] k h = (h, refl)
release_each-IsPlaced (l ∷ ls) k h =
    release_each-IsPlaced ls (free_one l k) (condition_broadcast-Woken (k.release l) k.sched h).0

-- A lock of the thread is free after it; any other is as it was.
abbrev pub Freed : ℕ → Locks → Locks → ℕ → Type 0
Freed t k k' l =
    ((owned_by (k.owner l) t ≡ true) × (k'.owner l ≡ none) × (k'.cnt l ≡ 0))
    ⊎ ((owned_by (k.owner l) t ≡ false) × (k'.owner l ≡ k.owner l) × (k'.cnt l ≡ k.cnt l))

release_all-Freed : (t : ℕ) (k : Locks) (l : ℕ) → IsHeld k → Freed t k (release_all t k) l
unfolding release_all
release_all-Freed t k l h = elim (Bool-cases (owned_by (k.owner l) t)) [
  | inl y ↦
      let one : occurs l (k.held t) ≡ 1 = h.listed l t ∙ (rw y refl) in
      let freed = release_each-in (k.held t) k l (inl (λ z. omega (arith, z, one))) in
      inl (y, freed.0, freed.1)
  | inr n ↦
      let none_here : occurs l (k.held t) ≡ 0 = h.listed l t ∙ (rw n refl) in
      let same = release_each-other (k.held t) k l none_here in inr (n, same.0, same.1)
]

owned_unique : (o : Option ℕ) (t u : ℕ) → owned_by o t ≡ true → t ≢ u → owned_by o u ≡ false
owned_unique none t u e ne = refl
owned_unique (some v) t u e ne = ne→== v u (λ x. ne (sym (==→eq v t e) ∙ x))

release_all-listed :
    (t : ℕ) (k : Locks) (l u : ℕ)
    → IsHeld k
    → Freed t k (release_all t k) l
    → occurs l (put k.held t [] u) ≡ (if owned_by ((release_all t k).owner l) u then 1 else 0)
release_all-listed t k l u h (inl e) = rw e.1 (elim (put_cases k.held t [] u) [
  | inl f ↦ ap (occurs l) f.2
  | inr n ↦ ap (occurs l) n.2 ∙ h.listed l u ∙ (rw (owned_unique (k.owner l) t u e.0 n.1) refl)
])
release_all-listed t k l u h (inr e) = rw e.1 (elim (put_cases k.held t [] u) [
  | inl f ↦ ap (occurs l) f.2 ∙ (rw (ap (owned_by (k.owner l)) (sym f.1) ∙ e.0) refl)
  | inr n ↦ ap (occurs l) n.2 ∙ h.listed l u
])

release_all-Counted :
    (t : ℕ) (k : Locks) (l : ℕ)
    → IsHeld k
    → Freed t k (release_all t k) l
    → Counted ((release_all t k).owner l) ((release_all t k).cnt l)
release_all-Counted t k l h (inl e) = rw (e.1, e.2) refl
release_all-Counted t k l h (inr e) = rw (e.1, e.2) (h.counted l)

release_all-held :
    (t : ℕ) (k : Locks)
    → IsPlaced k.sched
    → IsPlaced (release_all t k).sched × ((release_all t k).held ≡ put k.held t [])
unfolding release_all
release_all-held t k h =
    let r = release_each-IsPlaced (k.held t) k h in (r.0, ap (λ (f : ℕ → List ℕ). put f t []) r.1)

-- Where every thread is in its place and each lock is on its owner's list with a count of its
-- holds, `release_all_thread_locks` frees each lock of the thread, whatever its count, changes the
-- owner and the count of no other lock, and leaves the thread without a lock; the lists still hold
-- what each thread owns, and every thread is where its state says.
pub release_all-Frees :
    (t : ℕ) (k : Locks)
    → IsHeld k
    → IsHeld (release_all t k)
      × ((l : ℕ) → Freed t k (release_all t k) l)
      × ((release_all t k).held t ≡ [])
release_all-Frees t k h =
    let r = release_all-held t k h.placed in
    (
      record {
        placed = r.0;
        listed = λ l u.
            ap (λ (f : ℕ → List ℕ). occurs l (f u)) r.1
            ∙ release_all-listed t k l u h (release_all-Freed t k l h);
        counted = λ l. release_all-Counted t k l h (release_all-Freed t k l h);
      },
      (λ l. release_all-Freed t k l h),
      ap (λ (f : ℕ → List ℕ). f t) r.1 ∙ (rw (eq→== t t refl) refl),
    )
