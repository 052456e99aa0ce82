-- ===== src/Thread/Lock/Release.antt =====
-- Releasing the locks of src/modified/sys/thread.c.
use unix_like_operating_syst.Base.{
  ℕ, ◌+◌, ◌-◌, ◌<◌, ◌≡◌, ◌≢◌, refl, sym, ap, ◌∙◌, ◌⊎◌, inl, inr, true, false, Option, none, some,
  List, [], ◌∷◌, arith, ◌==◌, if◌then◌else◌, eq→==, ne→==, ==→eq, Bool-cases, put,
}
use mathlib.Core.Path.{subst}
use unix_like_operating_syst.Thread.Sched.{condition_broadcast}
use unix_like_operating_syst.Thread.Sched.Placed.{occurs, put_cases}
use unix_like_operating_syst.Thread.Sched.Broadcast.{condition_broadcast-Woken}
use unix_like_operating_syst.Thread.Lock.{
  Locks, owned_by, unlink, keep, disown, release_completely, lock_release,
}
use unix_like_operating_syst.Thread.Lock.Held.{Counted, IsHeld, Counted-put, put_self}

abbrev Unlinks : ℕ → List ℕ → Option (List ℕ) → Type 0
Unlinks l ms none = ⊥
Unlinks l ms (some ks) = (m : ℕ) → (if l == m then 1 else 0) + occurs m ks ≡ occurs m ms

keep-Unlinks :
    (l u : ℕ) (ms : List ℕ) (o : Option (List ℕ)) → Unlinks l ms o → Unlinks l (u ∷ ms) (keep u o)
keep-Unlinks l u ms none h = h
keep-Unlinks l u ms (some ks) h = λ m. omega (arith, h m)

-- The walk finds a lock that is on the list, and takes it off once.
unlink-Unlinks : (l : ℕ) (ms : List ℕ) → occurs l ms ≢ 0 → Unlinks l ms (unlink l ms)
unfolding unlink
unlink-Unlinks l [] ne = absurd (ne refl)
unlink-Unlinks l (u ∷ ms) ne = elim (Bool-cases (u == l)) [
  | inl y ↦ rw y (λ m. ap (λ v. (if v == m then 1 else 0) + occurs m ms) (sym (==→eq u l y)))
  | inr n ↦
      rw n (
        keep-Unlinks l u ms (unlink l ms) (unlink-Unlinks l ms (λ z. ne (rw n (omega (arith, z))))))
]

-- One hold less; the last one frees the lock and makes its waiters ready.
abbrev pub Releases : ℕ → Locks → Option Locks → Type 0
Releases l k none = ⊥
Releases l k (some k') =
    IsHeld k'
    × (k'.cnt ≡ put k.cnt l (k.cnt l - 1))
    × (((k.cnt l ≡ 1)
          × (k'.owner ≡ put k.owner l none)
          × (k'.sched ≡ condition_broadcast (k.release l) k.sched))
        ⊎ ((1 < k.cnt l) × (k'.owner ≡ k.owner) × (k'.sched ≡ k.sched)))

listed-release :
    (owner : ℕ → Option ℕ) (held : ℕ → List ℕ) (l t : ℕ) (ms : List ℕ) (m u : ℕ)
    → ((m u : ℕ) → occurs m (held u) ≡ (if owned_by (owner m) u then 1 else 0))
    → owner l ≡ some t
    → ((m : ℕ) → (if l == m then 1 else 0) + occurs m ms ≡ occurs m (held t))
    → occurs m (put held t ms u) ≡ (if owned_by (put owner l none m) u then 1 else 0)
listed-release owner held l t ms m u h mine walk = elim (put_cases owner l none m) [
  | inl e ↦
      let at : (v : ℕ) → occurs m (held v) ≡ (if t == v then 1 else 0) = λ v.
        h m v ∙ ap (λ (o : Option ℕ). if owned_by o v then 1 else 0) (ap owner (sym e.1) ∙ mine) in
      let one : 1 + occurs m ms ≡ occurs m (held t) = rw e.0 at (walk m) in
      let all : occurs m (held t) ≡ 1 = rw (eq→== t t refl) at (at t) in
      rw e.2 (elim (put_cases held t ms u) [
        | inl f ↦ ap (occurs m) f.2 ∙ omega (arith, one, all)
        | inr n ↦ ap (occurs m) n.2 ∙ at u ∙ (rw n.0 refl)
      ])
  | inr n ↦
      let same : 0 + occurs m ms ≡ occurs m (held t) = rw n.0 at (walk m) in
      rw n.2 (elim (put_cases held t ms u) [
        | inl f ↦
            ap (occurs m) f.2
            ∙ omega (arith, same)
            ∙ h m t
            ∙ ap (λ v. if owned_by (owner m) v then 1 else 0) f.1
        | inr o ↦ ap (occurs m) o.2 ∙ h m u
      ])
]

disown-Releases :
    (l : ℕ) (k : Locks) (o : Option (List ℕ))
    → k.owner l ≡ some k.sched.running
    → k.cnt l ≡ 1
    → IsHeld k
    → Unlinks l (k.held k.sched.running) o
    → Releases l k (
        disown l
          (record k { cnt = put k.cnt l (k.cnt l - 1) })
          (condition_broadcast (k.release l) k.sched)
          o)
unfolding disown
disown-Releases l k none mine one h w = w
disown-Releases l k (some ms) mine one h w = (
  record {
    placed = (condition_broadcast-Woken (k.release l) k.sched h.placed).0;
    listed = λ m u. listed-release k.owner k.held l k.sched.running ms m u h.listed mine w;
    counted = Counted-put k.owner k.cnt l none (k.cnt l - 1) h.counted (omega (arith, one));
  },
  refl,
  inl (one, refl, refl),
)

-- Where every thread is in its place and each lock is on its owner's list with a count of its
-- holds, `lock_release` by a lock's owner succeeds and takes one hold off. Where it was the last
-- one, the lock has no owner after it and the waiters for its release are made ready; otherwise the
-- caller keeps the lock. No other lock's owner or count changes, and the lists still hold what each
-- thread owns.
pub lock_release-Releases :
    (l : ℕ) (k : Locks)
    → k.owner l ≡ some k.sched.running
    → IsHeld k
    → Releases l k (lock_release l k)
unfolding lock_release release_completely
lock_release-Releases l k mine h =
    let t : ℕ = k.sched.running in
    let pos : 0 < k.cnt l = subst (λ (x : Option ℕ). Counted x (k.cnt l)) mine (h.counted l) in
    let here : owned_by (k.owner l) t ≡ true =
      ap (λ (o : Option ℕ). owned_by o t) mine ∙ eq→== t t refl in
    let on_list : occurs l (k.held t) ≡ 1 = h.listed l t ∙ (rw here refl) in
    let some_hold : (k.cnt l == 0) ≡ false = ne→== (k.cnt l) 0 (λ e. omega (arith, pos, e)) in
    elim (Bool-cases (k.cnt l - 1 == 0)) [
      | inl y ↦
          let one : k.cnt l ≡ 1 = ground (arith, y, pos) in
          rw (here, some_hold, y)
            (disown-Releases l k (unlink l (k.held t)) mine one h
              (unlink-Unlinks l (k.held t) (λ z. omega (arith, z, on_list))))
      | inr n ↦
          let more : 1 < k.cnt l = ground (arith, n, pos) in
          let same : k.owner ≡ put k.owner l (some t) = put_self k.owner l (some t) mine in
          let counted : (m : ℕ) → Counted (put k.owner l (some t) m) (put k.cnt l (k.cnt l - 1) m) =
            Counted-put k.owner k.cnt l (some t) (k.cnt l - 1) h.counted (omega (arith, more)) in
          rw (here, some_hold, n)
            (
              record {
                placed = h.placed;
                listed = h.listed;
                counted = λ m.
                    subst (λ (f : ℕ → Option ℕ). Counted (f m) (put k.cnt l (k.cnt l - 1) m))
                      (sym same) (counted m);
              },
              refl,
              inr (more, refl, refl),
            )
    ]
