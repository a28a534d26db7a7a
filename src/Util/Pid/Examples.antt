-- ===== src/Util/Pid/Examples.antt =====
-- The PID controller on thousandths, with gains 2, 0.5 and 1 and the limits 1 and 20.
use robo_band.Base.{◌≡◌, refl, List, [], ◌∷◌, All}
use robo_band.Base.Int.{pos, negsuc, ◌+ℤ◌, ◌-ℤ◌, ◌*ℤ◌, ◌/ℤ◌, neg_ℤ}
use robo_band.Base.Float.Milli.{Milli, milli, milli_float, Milli-IsOrdered}
use robo_band.Util.Pid.{PidParam, new_pid, calc, calc_all, pid_siso}
use robo_band.Util.Pid.Bounds.{Stays, calc_all-Stays}
use robo_band.Util.Pid.History.{calc_all-responses, responses}

abbrev gains : PidParam Milli
gains = record {
  kp = milli (pos 2000);
  ki = milli (pos 500);
  kd = milli (pos 1000);
  max_iout = milli (pos 1000);
  max_out = milli (pos 20000);
}

abbrev errors : List Milli
errors = milli (pos 1000) ∷ milli (pos 1500) ∷ milli (negsuc 39999) ∷ []

outputs :
    (calc_all (new_pid gains) errors).1
    ≡ milli (pos 3500) ∷ milli (pos 4500) ∷ milli (negsuc 19999) ∷ []
unfolding calc_all new_pid calc ◌+ℤ◌ ◌-ℤ◌ ◌*ℤ◌ ◌/ℤ◌ neg_ℤ
outputs = refl

calc_all-Stays_example :
    let run = calc_all (new_pid gains) errors in
    Stays (milli (pos 1000)) run.0.i_out × All (Stays (milli (pos 20000))) run.1
unfolding new_pid neg_ℤ ◌*ℤ◌
calc_all-Stays_example =
    calc_all-Stays Milli-IsOrdered (new_pid gains) errors
      (record { not_negative = refl; number = refl; neg_number = refl })
      (record { not_negative = refl; number = refl; neg_number = refl }) (refl, refl)

calc_all-responses_example : (calc_all (new_pid gains) errors).1 ≡ responses gains [] errors
calc_all-responses_example = calc_all-responses gains errors
