-- ===== src/Timer/Sorted.antt =====
-- The sleep list of src/modified/sys/timer.c is sorted, and the compare register is at its head.
use unix_like_operating_syst.Base.{
  ℕ, ◌+◌, ◌-◌, ◌≤◌, ◌<◌, ◌≡◌, refl, ap, ◌⊎◌, inl, inr, Bool, ◌&&◌, List, [], ◌∷◌, arith, ltb, leb,
  ◌==◌, if◌then◌else◌, All, Bool-cases,
}
use unix_like_operating_syst.Timer.{
  Alarm, Timer, u64_max, wake_time, insert_after, insert, first_wake, enqueue, sleep,
}

-- Each alarm is due no later than those behind it.
abbrev pub IsSorted : List Alarm → Type 0
IsSorted [] = Unit
IsSorted (b ∷ bs) = All (λ x. b.twake ≤ x.twake) bs × IsSorted bs

-- How often an alarm is on the list with a wake-up time.
abbrev pub occurs : ℕ → ℕ → List Alarm → ℕ
occurs i w [] = 0
occurs i w (b ∷ bs) = (if b.id == i && b.twake == w then 1 else 0) + occurs i w bs

All-insert_after :
    (P : Alarm → Type 0) (al : Alarm) (bs : List Alarm)
    → P al
    → All P bs
    → All P (insert_after al bs)
unfolding insert_after
All-insert_after P al [] p h = (p, tt)
All-insert_after P al (b ∷ bs) p h = elim (Bool-cases (ltb b.twake al.twake)) [
  | inl t ↦ rw t (h.0, All-insert_after P al bs p h.1)
  | inr f ↦ rw f (p, h)
]

pub le-All :
    (a b : ℕ) (bs : List Alarm) → a ≤ b → All (λ x. b ≤ x.twake) bs → All (λ x. a ≤ x.twake) bs
le-All a b [] le h = tt
le-All a b (x ∷ bs) le h = (omega (arith, le, h.0), le-All a b bs le h.1)

insert_after-IsSorted : (al : Alarm) (bs : List Alarm) → IsSorted bs → IsSorted (insert_after al bs)
unfolding insert_after
insert_after-IsSorted al [] h = (tt, tt)
insert_after-IsSorted al (b ∷ bs) h = elim (Bool-cases (ltb b.twake al.twake)) [
  | inl t ↦ rw t (
    All-insert_after (λ x. b.twake ≤ x.twake) al bs (ground (arith, t)) h.0,
    insert_after-IsSorted al bs h.1,
  )
  | inr f ↦
      let le : al.twake ≤ b.twake = ground (arith, f) in
      rw f ((le, le-All al.twake b.twake bs le h.0), h)
]

pub insert-IsSorted : (al : Alarm) (bs : List Alarm) → IsSorted bs → IsSorted (insert al bs)
unfolding insert
insert-IsSorted al [] h = (tt, tt)
insert-IsSorted al (b ∷ bs) h = elim (Bool-cases (leb al.twake b.twake)) [
  | inl t ↦
      let le : al.twake ≤ b.twake = ground (arith, t) in
      rw t ((le, le-All al.twake b.twake bs le h.0), h)
  | inr f ↦ rw f (
    All-insert_after (λ x. b.twake ≤ x.twake) al bs (ground (arith, f)) h.0,
    insert_after-IsSorted al bs h.1,
  )
]

occurs-insert_after :
    (i w : ℕ) (al : Alarm) (bs : List Alarm)
    → occurs i w (insert_after al bs)
      ≡ (if al.id == i && al.twake == w then 1 else 0) + occurs i w bs
unfolding insert_after
occurs-insert_after i w al [] = refl
occurs-insert_after i w al (b ∷ bs) = ground (arith, occurs-insert_after i w al bs)

pub occurs-insert :
    (i w : ℕ) (al : Alarm) (bs : List Alarm)
    → occurs i w (insert al bs) ≡ (if al.id == i && al.twake == w then 1 else 0) + occurs i w bs
unfolding insert
occurs-insert i w al [] = refl
occurs-insert i w al (b ∷ bs) = ground (arith, occurs-insert_after i w al bs)

-- The list is sorted, and no sleeper is due before the compare register.
pub record IsArmed (t : Timer) : Type 0 where
  pub sorted : IsSorted t.sleep_list
  pub armed : All (λ x. t.compare ≤ x.twake) t.sleep_list

first-All : (d : ℕ) (bs : List Alarm) → IsSorted bs → All (λ x. first_wake d bs ≤ x.twake) bs
first-All d [] h = tt
first-All d (b ∷ bs) h = (omega arith, h.0)

enqueue-IsArmed : (al : Alarm) (t : Timer) → IsArmed t → IsArmed (enqueue al t)
unfolding enqueue
enqueue-IsArmed al t h =
    let s : IsSorted (insert al t.sleep_list) = insert-IsSorted al t.sleep_list h.sorted in
    record { sorted = s; armed = first-All t.compare (insert al t.sleep_list) s }

occurs-enqueue :
    (i w : ℕ) (al : Alarm) (t : Timer)
    → occurs i w (enqueue al t).sleep_list
      ≡ (if al.id == i && al.twake == w then 1 else 0) + occurs i w t.sleep_list
unfolding enqueue
occurs-enqueue i w al t = occurs-insert i w al t.sleep_list

set_compare :
    (al : Alarm) (t : Timer)
    → (enqueue al t).compare ≡ first_wake t.compare (enqueue al t).sleep_list
unfolding enqueue
set_compare al t = refl

wake_time_cases :
    (a n : ℕ)
    → a ≤ u64_max
    → ((a + n ≤ u64_max) × (wake_time a n ≡ a + n))
      ⊎ ((u64_max < a + n) × (wake_time a n ≡ u64_max))
unfolding wake_time
wake_time_cases a n h = elim (Bool-cases (ltb (u64_max - a) n)) [
  | inl t ↦ inr (ground (arith, t, h), ap (λ (b : Bool). if b then u64_max else a + n) t)
  | inr f ↦ inl (ground (arith, f, h), ap (λ (b : Bool). if b then u64_max else a + n) f)
]

-- `alarm_sleep` saturates: the wake-up time is the old one plus the count, or the largest number.
-- A caller whose time has passed already is not queued, and nothing changes; any other is queued
-- once, with its wake-up time, while every alarm of the list keeps its own, in a list that is sorted
-- again, and the compare register is set to the wake-up time at its head.
pub sleep-IsArmed :
    (now later tcnt : ℕ) (al : Alarm) (t : Timer)
    → al.twake ≤ u64_max
    → IsArmed t
    → let (al', waits, t') = sleep now later tcnt al t in
      IsArmed t'
      × (((al.twake + tcnt ≤ u64_max) × (al'.twake ≡ al.twake + tcnt))
          ⊎ ((u64_max < al.twake + tcnt) × (al'.twake ≡ u64_max)))
      × (((al'.twake < now) × (t' ≡ t))
          ⊎ ((now ≤ al'.twake)
              × (t'.compare ≡ first_wake t.compare t'.sleep_list)
              × ((i w : ℕ)
                  → occurs i w t'.sleep_list
                    ≡ (if al.id == i && al'.twake == w then 1 else 0) + occurs i w t.sleep_list)))
unfolding sleep
sleep-IsArmed now later tcnt al t small h =
    let al' : Alarm = record al { twake = wake_time al.twake tcnt } in
    elim (Bool-cases (ltb (wake_time al.twake tcnt) now)) [
      | inl lt ↦ simp lt (h, wake_time_cases al.twake tcnt small, inl (ground (arith, lt), refl))
      | inr ge ↦ simp ge (
        enqueue-IsArmed al' t h,
        wake_time_cases al.twake tcnt small,
        inr (ground (arith, ge), set_compare al' t, λ i w. occurs-enqueue i w al' t),
      )
    ]
