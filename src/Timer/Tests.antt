-- ===== src/Timer/Tests.antt =====
-- The alarms of src/modified/sys/timer.c on a list of two sleepers.
use unix_like_operating_syst.Base.{
  ℕ, ◌+◌, ◌≤◌, ◌<◌, ◌≡◌, refl, ◌⊎◌, true, false, [], ◌∷◌, arith, ◌==◌, ◌&&◌, if◌then◌else◌,
}
use unix_like_operating_syst.Timer.{
  Alarm, Timer, u64_max, first_wake, sleep, wake, handle_interrupt,
}
use unix_like_operating_syst.Timer.Sorted.{IsArmed, occurs, sleep-IsArmed}
use unix_like_operating_syst.Timer.Interrupt.{
  Woken, sleep_all, handle_interrupt-Wakes, handle_interrupt-stays_off,
}

abbrev two_sleepers : Timer
two_sleepers = record {
  ticks = 0;
  next_tick = 1000;
  sleep_list = record { id = 1; twake = 500 } ∷ record { id = 2; twake = 900 } ∷ [];
  compare = 500;
  sie = true;
}

two_sleepers-IsArmed : IsArmed two_sleepers
two_sleepers-IsArmed = record {
  sorted = ((omega arith, tt), (tt, tt));
  armed = (omega arith, (omega arith, tt));
}

abbrev third : Alarm
third = record { id = 3; twake = 400 }

sleep-IsArmed_example :
    let (al', waits, t') = sleep 450 460 300 third two_sleepers in
    IsArmed t'
    × (((400 + 300 ≤ u64_max) × (al'.twake ≡ 400 + 300))
        ⊎ ((u64_max < 400 + 300) × (al'.twake ≡ u64_max)))
    × (((al'.twake < 450) × (t' ≡ two_sleepers))
        ⊎ ((450 ≤ al'.twake)
            × (t'.compare ≡ first_wake two_sleepers.compare t'.sleep_list)
            × ((i w : ℕ)
                → occurs i w t'.sleep_list
                  ≡ (if 3 == i && al'.twake == w then 1 else 0)
                    + occurs i w two_sleepers.sleep_list)))
sleep-IsArmed_example =
    sleep-IsArmed 450 460 300 third two_sleepers (omega arith) two_sleepers-IsArmed

handle_interrupt-Wakes_example :
    let (woken, t') = handle_interrupt 600 two_sleepers in
    Woken 600 two_sleepers.sleep_list (woken, t'.sleep_list)
    × IsArmed t'
    × (600 < t'.next_tick)
    × (600 < t'.compare)
    × (t'.compare ≤ t'.next_tick)
handle_interrupt-Wakes_example =
    handle_interrupt-Wakes 600 two_sleepers (omega arith) two_sleepers-IsArmed

handle_interrupt-stays_off_example :
    ((handle_interrupt 600 two_sleepers).1.sie ≡ false)
    × ((sleep_all ((700, 710, 300, third) ∷ []) (handle_interrupt 600 two_sleepers).1).sie ≡ false)
unfolding handle_interrupt wake
handle_interrupt-stays_off_example =
    handle_interrupt-stays_off 600 two_sleepers ((700, 710, 300, third) ∷ []) refl
