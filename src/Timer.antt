-- ===== src/Timer.antt =====
-- src/modified/sys/timer.c: alarms on a list sorted by wake-up time, and the timer interrupt.
--
-- The clock is read where the code reads it: the readings are arguments. Times are 64-bit numbers.
-- An alarm is named by a number, which stands for its address. Waiting on the alarm's condition is
-- left to the thread manager: `sleep` says whether the caller waits, and the interrupt says whom it
-- wakes. `sie` is bit 5 of the register of that name, `compare` the timer's compare register.
pub mod Sorted
pub mod Interrupt
mod Tests
use unix_like_operating_syst.Base.{
  ℕ, ◌+◌, ◌-◌, ◌*◌, ◌/◌, ◌%◌, ◌^◌, Bool, true, false, ◌&&◌, ◌||◌, List, [], ◌∷◌, ltb, leb, ◌==◌,
  if◌then◌else◌,
}

abbrev pub u64_max : ℕ
u64_max = 2 ^ 64 - 1

abbrev pub timer_freq : ℕ
timer_freq = 10_000_000

-- `struct alarm`
pub record Alarm : Type 0 where
  pub id : ℕ
  pub twake : ℕ

pub record Timer : Type 0 where
  pub ticks : ℕ
  pub next_tick : ℕ
  pub sleep_list : List Alarm
  pub compare : ℕ
  pub sie : Bool

-- `alarm_init` and `alarm_reset`, with the time read
pub reset : ℕ → Alarm → Alarm
reset now al = record al { twake = now }

-- The wake-up time that `alarm_sleep` sets, saturated.
pub wake_time : ℕ → ℕ → ℕ
wake_time twake tcnt = if ltb (u64_max - twake) tcnt then u64_max else twake + tcnt

-- The walk to an alarm's place, behind the head.
pub insert_after : Alarm → List Alarm → List Alarm
insert_after al [] = al ∷ []
insert_after al (b ∷ bs) = if ltb b.twake al.twake then b ∷ insert_after al bs else al ∷ b ∷ bs

pub insert : Alarm → List Alarm → List Alarm
insert al [] = al ∷ []
insert al (b ∷ bs) = if leb al.twake b.twake then al ∷ b ∷ bs else b ∷ insert_after al bs

abbrev pub is_empty : List Alarm → Bool
is_empty [] = true
is_empty (_ ∷ _) = false

abbrev pub first_wake : ℕ → List Alarm → ℕ
first_wake d [] = d
first_wake d (b ∷ bs) = b.twake

pub enqueue : Alarm → Timer → Timer
enqueue al t = record t {
  sleep_list = insert al t.sleep_list;
  compare = first_wake t.compare (insert al t.sleep_list);
  sie = if is_empty t.sleep_list then true else t.sie;
}

-- `alarm_sleep` up to its wait: the alarm after it, whether the caller waits, and the timer. `now`
-- is the first reading of the clock, `later` the one in the loop's test.
pub sleep : ℕ → ℕ → ℕ → Alarm → Timer → Alarm × Bool × Timer
sleep now later tcnt al t =
    let al' : Alarm = record al { twake = wake_time al.twake tcnt } in
    if ltb al'.twake now then (al', false, t) else (al', ltb later al'.twake, enqueue al' t)

-- `alarm_sleep_sec`, `alarm_sleep_ms`, `alarm_sleep_us`: the count of ticks.
pub sec_ticks : ℕ → ℕ
sec_ticks sec = sec * timer_freq % 2 ^ 64

pub ms_ticks : ℕ → ℕ
ms_ticks ms = ms * (timer_freq / 1000) % 2 ^ 64

pub us_ticks : ℕ → ℕ
us_ticks us = us * (timer_freq / 1000 / 1000) % 2 ^ 64

-- `sleep_us`, `sleep_ms`, `sleep_sec`: each calls the one before.
pub sleep_us_ticks : ℕ → ℕ
sleep_us_ticks us = us_ticks us

pub sleep_ms_ticks : ℕ → ℕ
sleep_ms_ticks ms = sleep_us_ticks (1000 * ms % 2 ^ 64)

pub sleep_sec_ticks : ℕ → ℕ
sleep_sec_ticks sec = sleep_ms_ticks (1000 * sec % 2 ^ 64)

-- The alarms that the interrupt wakes, and those that it leaves.
pub wake : ℕ → List Alarm → List Alarm × List Alarm
wake now [] = ([], [])
wake now (b ∷ bs) =
    let (woken, rest) = wake now bs in if leb b.twake now then (b ∷ woken, rest) else ([], b ∷ bs)

-- `handle_timer_interrupt`: the alarms woken, and the timer.
pub handle_interrupt : ℕ → Timer → List Alarm × Timer
handle_interrupt now t =
    let (woken, rest) = wake now t.sleep_list in
    let ticks : ℕ = if t.ticks == 0 then timer_freq / 100 else t.ticks in
    let tick : ℕ =
      if leb t.next_tick now
      then (t.next_tick + ((now - t.next_tick) / ticks + 1) * ticks) % 2 ^ 64
      else t.next_tick in
    (
      woken,
      record {
        ticks = ticks;
        next_tick = tick;
        sleep_list = rest;
        compare = if ltb (first_wake tick rest) tick then first_wake tick rest else tick;
        sie = false;
      },
    )
