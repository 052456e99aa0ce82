-- ===== src/Thread/Table/Slots.antt =====
-- The scans over the thread table of src/modified/sys/thread.c.
use unix_like_operating_syst.Base.{
  ℕ, zero, suc, ◌+◌, ◌≤◌, ◌<◌, ◌≡◌, ◌≢◌, refl, sym, ap, ◌∙◌, ◌⊎◌, inl, inr, Bool, true, false,
  Option, none, some, arith, ◌==◌, Bool-cases, ==→eq, ==→ne,
}
use native.Mathlib.Decide.{dec_le}
use unix_like_operating_syst.Thread.Table.{Thread, Threads, find_slot, reparent, adopt}

-- The first slot of a range that passes the test, or none that does.
abbrev pub FirstSlot : (Option Thread → Bool) → ℕ → ℕ → Threads → Option ℕ → Type 0
FirstSlot test n i tab none = (j : ℕ) → i ≤ j → j < i + n → test (tab j) ≡ false
FirstSlot test n i tab (some k) =
    (i ≤ k) × (k < i + n) × (test (tab k) ≡ true) × ((j : ℕ) → i ≤ j → j < k → test (tab j) ≡ false)

FirstSlot-later :
    (test : Option Thread → Bool) (n i : ℕ) (tab : Threads) (o : Option ℕ)
    → test (tab i) ≡ false
    → FirstSlot test n (i + 1) tab o
    → FirstSlot test (suc n) i tab o
FirstSlot-later test n i tab none e h = λ j le lt. elim (dec_le (i + 1) j) [
  | yes y ↦ h j y (omega (arith, lt))
  | no m ↦ let same : i ≡ j = omega (arith, le, m) in ap (λ k. test (tab k)) (sym same) ∙ e
]
FirstSlot-later test n i tab (some k) e h = (
  omega (arith, h.0),
  omega (arith, h.1),
  h.2,
  λ j le lt. elim (dec_le (i + 1) j) [
    | yes y ↦ h.3 j y lt
    | no m ↦ let same : i ≡ j = omega (arith, le, m) in ap (λ k. test (tab k)) (sym same) ∙ e
  ],
)

pub find_slot-FirstSlot :
    (test : Option Thread → Bool) (n i : ℕ) (tab : Threads)
    → FirstSlot test n i tab (find_slot test n i tab)
unfolding find_slot
find_slot-FirstSlot test zero i tab = λ j le lt. absurd (omega (arith, le, lt))
find_slot-FirstSlot test (suc n) i tab = elim (Bool-cases (test (tab i))) [
  | inl t ↦ rw t (omega arith, omega arith, t, λ j le lt. absurd (omega (arith, le, lt)))
  | inr f ↦ rw f (
      FirstSlot-later test n i tab (find_slot test n (i + 1) tab) f
        (find_slot-FirstSlot test n (i + 1) tab))
]

-- The loop of `thread_reclaim` changes each slot of its range once.
pub reparent-at :
    (tid : ℕ) (parent : Option ℕ) (n : ℕ) (tab : Threads) (i : ℕ)
    → (((1 ≤ i) × (i < n) × (reparent tid parent n tab i ≡ adopt tid parent (tab i)))
        ⊎ (((i ≡ 0) ⊎ (n ≤ i)) × (reparent tid parent n tab i ≡ tab i)))
unfolding reparent
reparent-at tid parent zero tab i = inr (inr (omega arith), refl)
reparent-at tid parent (suc zero) tab zero = inr (inl refl, refl)
reparent-at tid parent (suc zero) tab (suc i) = inr (inr (omega arith), refl)
reparent-at tid parent (suc (suc n)) tab i = elim (Bool-cases (suc n == i)) [
  | inl y ↦
      let here : suc n ≡ i = ==→eq (suc n) i y in
      rw y (elim (reparent-at tid parent (suc n) tab (suc n)) [
        | inl e ↦ absurd (omega (arith, e.1))
        | inr e ↦
            inl
              (omega (arith, here), omega (arith, here), ap (adopt tid parent) (e.1 ∙ ap tab here))
      ])
  | inr m ↦
      let other : suc n ≢ i = ==→ne (suc n) i m in
      rw m (elim (reparent-at tid parent (suc n) tab i) [
        | inl e ↦ inl (e.0, omega (arith, e.1), e.2)
        | inr e ↦ elim e.0 [
          | inl z ↦ inr (inl z, e.1)
          | inr le ↦ inr (inr (omega (arith, le, other)), e.1)
        ]
      ])
]
