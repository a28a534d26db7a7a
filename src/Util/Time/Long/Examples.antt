-- ===== src/Util/Time/Long/Examples.antt =====
-- Times at which `long` has room, and one at which it has not.
use robo_band.Base.{◌≡◌, refl, none, some, arith}
use robo_band.Base.Int.{pos, ◌+ℤ◌, ◌-ℤ◌}
use robo_band.Util.Time.{Timespec, inc_time}
use robo_band.Util.Time.Carry.{IsNormal, total}
use robo_band.Util.Time.Long.{
  long_max, checked, carry_loop_long, inc_time_long, get_time_duration_long,
}
use robo_band.Util.Time.Long.Fits.{HasRoom, inc_time_long-duration}

abbrev late : Timespec
late = record { tv_sec = pos 7; tv_nsec = pos 999000000 }

late-IsNormal : IsNormal late
late-IsNormal = record { not_negative = ground arith; below_second = ground arith }

late-HasRoom : HasRoom late (pos 2500000000)
late-HasRoom = record {
  not_negative = ground arith;
  time_below = ground arith;
  sec_above = ground arith;
  sec_below = ground arith;
}

inc_time_long-duration_example :
    (inc_time_long late (pos 2500000000) ≡ some (inc_time late (pos 2500000000)))
    × IsNormal (inc_time late (pos 2500000000))
    × (total (inc_time late (pos 2500000000)) ≡ total late +ℤ pos 2500000000)
    × (get_time_duration_long late (inc_time late (pos 2500000000)) ≡ some (pos 2500000000))
inc_time_long-duration_example =
    inc_time_long-duration late (pos 2500000000) late-IsNormal late-HasRoom

abbrev last : Timespec
last = record { tv_sec = pos long_max; tv_nsec = pos 999999999 }

overflow : inc_time_long last (pos 1) ≡ none
unfolding inc_time_long carry_loop_long checked ◌+ℤ◌ ◌-ℤ◌
overflow = refl
