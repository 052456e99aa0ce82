-- ===== src/Timer/Interrupt.antt =====
-- The timer interrupt of src/modified/sys/timer.c.
use unix_like_operating_syst.Base.{
  ℕ, zero, suc, ◌+◌, ◌-◌, ◌*◌, ◌/◌, ◌%◌, ◌^◌, ◌≤◌, ◌<◌, ◌≡◌, refl, ap, inl, inr, false, List, [],
  ◌∷◌, ◌++◌, arith, ltb, leb, ◌==◌, if◌then◌else◌, All, Bool-cases,
}
use native.Mathlib.Omega.{div_fact, mod_fact}
use native.Mathlib.Nat.{mul_comm, mod-eq_of_lt}
use unix_like_operating_syst.Timer.{
  Alarm, Timer, timer_freq, insert, first_wake, is_empty, enqueue, sleep, wake, handle_interrupt,
  wake_time,
}
use unix_like_operating_syst.Timer.Sorted.{IsSorted, IsArmed, le-All}

-- The sleepers are cut into those that are due and those that are not.
abbrev pub Woken : ℕ → List Alarm → List Alarm × List Alarm → Type 0
Woken now bs (woken, rest) =
    (bs ≡ woken ++ rest)
    × All (λ x. x.twake ≤ now) woken
    × All (λ x. now < x.twake) rest
    × IsSorted rest

All-later :
    (now a : ℕ) (bs : List Alarm)
    → now < a
    → All (λ x. a ≤ x.twake) bs
    → All (λ x. now < x.twake) bs
All-later now a [] lt h = tt
All-later now a (x ∷ bs) lt h = (omega (arith, lt, h.0), All-later now a bs lt h.1)

wake-Woken : (now : ℕ) (bs : List Alarm) → IsSorted bs → Woken now bs (wake now bs)
unfolding wake
wake-Woken now [] h = (refl, tt, tt, tt)
wake-Woken now (b ∷ bs) h =
    let rest = wake-Woken now bs h.1 in
    elim (Bool-cases (leb b.twake now)) [
      | inl t ↦ rw t (ap (λ l. b ∷ l) rest.0, (ground (arith, t), rest.1), rest.2, rest.3)
      | inr f ↦
          let lt : now < b.twake = ground (arith, f) in
          rw f (refl, tt, (lt, All-later now b.twake bs lt h.0), h)
    ]

-- The time between two ticks, as the handler takes them.
abbrev pub period : ℕ → ℕ
period ticks = if ticks == 0 then timer_freq / 100 else ticks

-- The next tick, before it is cut to 64 bits.
abbrev pub catch_up : ℕ → ℕ → ℕ → ℕ
catch_up now next q = next + ((now - next) / q + 1) * q

suc_mul_at : (a b : ℕ) → (a + 1) * b ≡ a * b + b
suc_mul_at a b = grind arith

div_bounds : (m q : ℕ) → 0 < q → (m < (m / q + 1) * q) × ((m / q + 1) * q ≤ m + q)
div_bounds m zero pos = absurd (omega arith)
div_bounds m (suc k) pos =
    let split : suc k * (m / suc k) + m % suc k ≡ m = div_fact m k in
    let small : m % suc k < suc k = mod_fact m k in
    let comm : (m / suc k) * suc k ≡ suc k * (m / suc k) = mul_comm (m / suc k) (suc k) in
    let dist : (m / suc k + 1) * suc k ≡ (m / suc k) * suc k + suc k =
      suc_mul_at (m / suc k) (suc k) in
    (omega (arith, split, small, comm, dist), omega (arith, split, small, comm, dist))

catch_up_bounds :
    (now next q : ℕ)
    → 0 < q
    → next ≤ now
    → (now < catch_up now next q) × (catch_up now next q ≤ now + q)
catch_up_bounds now next q pos le =
    let h = div_bounds (now - next) q pos in (omega (arith, h.0, le), omega (arith, h.1, le))

tick_bounds :
    (now next q : ℕ)
    → 0 < q
    → now + q < 2 ^ 64
    → now < (if leb next now then catch_up now next q % 2 ^ 64 else next)
tick_bounds now next q pos fits = elim (Bool-cases (leb next now)) [
  | inl t ↦
      let h = catch_up_bounds now next q pos (ground (arith, t)) in
      let same : catch_up now next q % 2 ^ 64 ≡ catch_up now next q =
        mod-eq_of_lt (omega (arith, h.1, fits)) in
      rw t (omega (arith, same, h.0))
  | inr f ↦ rw f (ground (arith, f))
]

period_pos : (ticks : ℕ) → 0 < period ticks
period_pos ticks = ground arith

compare_bounds :
    (now tick : ℕ) (bs : List Alarm)
    → now < tick
    → IsSorted bs
    → All (λ x. now < x.twake) bs
    → let c : ℕ = if ltb (first_wake tick bs) tick then first_wake tick bs else tick in
      (now < c) × (c ≤ tick) × All (λ x. c ≤ x.twake) bs
compare_bounds now tick [] lt s h = (ground (arith, lt), ground arith, tt)
compare_bounds now tick (b ∷ bs) lt s h = (
  ground (arith, lt, h.0),
  ground arith,
  (ground arith, le-All (if ltb b.twake tick then b.twake else tick) b.twake bs (ground arith) s.0),
)

-- On a sorted list, and where the clock plus one period does not pass 64 bits, the interrupt wakes
-- the sleepers that are due, which are the first ones, and no other; the rest stays sorted, with no
-- sleeper due before the compare register; the next tick lies after the time read, and the
-- compare register after the time read and not after that tick.
pub handle_interrupt-Wakes :
    (now : ℕ) (t : Timer)
    → now + period t.ticks < 2 ^ 64
    → IsArmed t
    → let (woken, t') = handle_interrupt now t in
      Woken now t.sleep_list (woken, t'.sleep_list)
      × IsArmed t'
      × (now < t'.next_tick)
      × (now < t'.compare)
      × (t'.compare ≤ t'.next_tick)
unfolding handle_interrupt
handle_interrupt-Wakes now t fits h =
    let w = wake-Woken now t.sleep_list h.sorted in
    let tick = tick_bounds now t.next_tick (period t.ticks) (period_pos t.ticks) fits in
    let c =
      compare_bounds now
        (if leb t.next_tick now
          then catch_up now t.next_tick (period t.ticks) % 2 ^ 64
          else t.next_tick)
        (wake now t.sleep_list).1 tick w.3 w.2 in
    (w, record { sorted = w.3; armed = c.2 }, tick, c.0, c.1)

-- Calls of `alarm_sleep`, one after the other, by threads that do not read the list in between.
abbrev pub sleep_all : List (ℕ × ℕ × ℕ × Alarm) → Timer → Timer
sleep_all [] t = t
sleep_all ((now, later, tcnt, al) ∷ calls) t = sleep_all calls (sleep now later tcnt al t).2

insert-not-empty : (al : Alarm) (bs : List Alarm) → is_empty (insert al bs) ≡ false
unfolding insert
insert-not-empty al [] = refl
insert-not-empty al (b ∷ bs) = ground arith

sleep-off :
    (now later tcnt : ℕ) (al : Alarm) (t : Timer)
    → is_empty t.sleep_list ≡ false
    → t.sie ≡ false
    → let t' = (sleep now later tcnt al t).2 in (is_empty t'.sleep_list ≡ false) × (t'.sie ≡ false)
unfolding sleep enqueue
sleep-off now later tcnt al t some_left off =
    let al' : Alarm = record al { twake = wake_time al.twake tcnt } in
    elim (Bool-cases (ltb (wake_time al.twake tcnt) now)) [
      | inl lt ↦ simp lt (some_left, off)
      | inr ge ↦ simp (ge, some_left, off) (insert-not-empty al' t.sleep_list, refl)
    ]

sleep_all-off :
    (calls : List (ℕ × ℕ × ℕ × Alarm)) (t : Timer)
    → is_empty t.sleep_list ≡ false
    → t.sie ≡ false
    → (sleep_all calls t).sie ≡ false
sleep_all-off [] t some_left off = off
sleep_all-off ((now, later, tcnt, al) ∷ calls) t some_left off =
    let h = sleep-off now later tcnt al t some_left off in
    sleep_all-off calls (sleep now later tcnt al t).2 h.0 h.1

-- Where an interrupt leaves a sleeper on the list, it leaves the timer's interrupt disabled, and no
-- sequence of calls of `alarm_sleep` enables it again.
pub handle_interrupt-stays_off :
    (now : ℕ) (t : Timer) (calls : List (ℕ × ℕ × ℕ × Alarm))
    → is_empty (handle_interrupt now t).1.sleep_list ≡ false
    → ((handle_interrupt now t).1.sie ≡ false)
      × ((sleep_all calls (handle_interrupt now t).1).sie ≡ false)
unfolding handle_interrupt
handle_interrupt-stays_off now t calls some_left =
    (refl, sleep_all-off calls (handle_interrupt now t).1 some_left refl)
