-- ===== src/Util/Time/Examples.antt =====
-- Runs of the time functions, and their theorems at concrete times.
use robo_band.Base.{◌≡◌, refl}
use robo_band.Base.Int.{pos, ◌+ℤ◌, ◌-ℤ◌, ◌*ℤ◌}
use robo_band.Util.Time.{Timespec, ns, ms, inc_time, carry_loop}

abbrev late : Timespec
late = record { tv_sec = pos 7; tv_nsec = pos 999000000 }

late_plus_5ms : inc_time late (pos 5 *ℤ ms ns) ≡ record { tv_sec = pos 8; tv_nsec = pos 4000000 }
unfolding inc_time carry_loop ◌*ℤ◌ ◌+ℤ◌ ◌-ℤ◌
late_plus_5ms = refl
