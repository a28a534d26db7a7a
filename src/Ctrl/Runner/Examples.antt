-- ===== src/Ctrl/Runner/Examples.antt =====
-- A runner with a period of 5 ms, whose second task takes too long.
use robo_band.Base.{◌≡◌, refl, [], ◌∷◌, map}
use robo_band.Base.Int.{pos, ◌+ℤ◌, ◌-ℤ◌, ◌*ℤ◌, ◌/ℤ◌}
use robo_band.Base.Float.Milli.{Milli, milli, milli_float}
use robo_band.Util.Time.{Timespec, inc_time, carry_loop, get_time_duration}
use robo_band.Util.Time.Carry.{total}
use robo_band.Ctrl.Runner.{Clocks, cycle_ns, round, thread_func}
use robo_band.Ctrl.Runner.Deadlines.{deadlines, thread_func-deadlines}

abbrev period : Milli
period = milli (pos 5000)

abbrev start : Timespec
start = record { tv_sec = pos 9; tv_nsec = pos 998000000 }

abbrev quick : Clocks
quick = record { t_start = start; t_now = record { tv_sec = pos 9; tv_nsec = pos 999000000 } }

abbrev slow : Clocks
slow = record {
  t_start = record { tv_sec = pos 10; tv_nsec = pos 3000000 };
  t_now = record { tv_sec = pos 10; tv_nsec = pos 10000000 };
}

times :
    thread_func period start (quick ∷ slow ∷ [])
    ≡ record { tv_sec = pos 10; tv_nsec = pos 3000000 }
      ∷ record { tv_sec = pos 10; tv_nsec = pos 15000000 }
      ∷ []
unfolding thread_func round inc_time carry_loop get_time_duration ◌*ℤ◌ ◌+ℤ◌ ◌-ℤ◌ ◌/ℤ◌
times = refl

thread_func-deadlines_example :
    map total (thread_func period start (quick ∷ slow ∷ []))
    ≡ deadlines (cycle_ns period) (total start) (quick ∷ slow ∷ [])
unfolding thread_func round inc_time carry_loop get_time_duration ◌*ℤ◌ ◌+ℤ◌ ◌-ℤ◌ ◌/ℤ◌
thread_func-deadlines_example =
    thread_func-deadlines period start (quick ∷ slow ∷ []) (refl, (refl, tt))
