-- ===== src/Util/Siso/Examples.antt =====
-- Runs of the systems on thousandths, and their theorems at concrete values.
use robo_band.Base.{◌≡◌, refl}
use robo_band.Base.Int.{pos, negsuc, neg_ℤ, ◌+ℤ◌, ◌-ℤ◌, ◌*ℤ◌, ◌/ℤ◌}
use robo_band.Base.Float.Milli.{Milli, milli, nan, milli_float}
use robo_band.Util.Siso.{func_siso, feed, chain, limit, limit_abs, rad_format, add_left}

runs :
    (limit (milli (pos 1)) (milli (pos 9)) (milli (pos 30)) ≡ milli (pos 9))
    × (limit_abs (milli (pos 9)) (milli (negsuc 29)) ≡ milli (negsuc 8))
    × (limit (milli (pos 1)) (milli (pos 9)) nan ≡ nan)
    × (rad_format (milli (pos 3200)) ≡ milli (negsuc 3083))
unfolding limit limit_abs rad_format neg_ℤ ◌*ℤ◌ ◌/ℤ◌ ◌-ℤ◌ ◌+ℤ◌
runs = (refl, refl, refl, refl)

-- A chain of two limits, fed with a sum.
chained :
    (feed (milli (pos 50)) (
      chain {F = Milli}
        (limit_abs (milli (pos 20)))
        (add_left (milli (pos 5)) (limit_abs (milli (pos 9)))))).o
    ≡ milli (pos 14)
unfolding feed chain limit_abs add_left neg_ℤ ◌+ℤ◌
chained = refl
