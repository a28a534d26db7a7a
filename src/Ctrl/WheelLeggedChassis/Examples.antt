-- ===== src/Ctrl/WheelLeggedChassis/Examples.antt =====
-- A chassis whose motors are on four devices that log the torques that they get, called three times.
use robo_band.Base.{ℕ, ◌≡◌, List, [], ◌∷◌, some}
use robo_band.Base.Int.{pos}
use robo_band.Base.Float.Milli.{Milli, milli, milli_float}
use robo_band.Base.Float.Crude.{crude_trig}
use robo_band.Util.Pid.{new_pid_of_values}
use robo_band.Virtual.Pointer.{Pointer, member}
use robo_band.Virtual.Motor.{Motor}
use robo_band.Virtual.FiveLink.{FiveLink, new_five_link}
use robo_band.Ctrl.WheelLeggedChassis.Products.{milli_eigen}
use robo_band.Ctrl.WheelLeggedChassis.{WheelLeggedChassis, new_wheel_legged_chassis, ctrl_loops}
use robo_band.Ctrl.WheelLeggedChassis.History.{each_anew, ctrl_loops-anew}

abbrev Log : Type 0
Log = List (ℕ × Milli)

abbrev motor : ℕ → Motor Milli Log
motor i = record {
  set_torque = λ torque log. (i, torque) ∷ log;
  angle = member i;
  speed = member 9;
  actual = some i;
}

abbrev leg : ℕ → ℕ → FiveLink Milli Log
leg i j =
    let zero = milli (pos 0) in
    new_five_link (milli (pos 75)) (milli (pos 140)) (milli (pos 240))
      (record { m00 = zero; m01 = zero; m10 = zero; m11 = zero }) (motor i) (motor j)

abbrev chassis : WheelLeggedChassis Milli Log
chassis = new_wheel_legged_chassis (leg 2 3) (leg 5 4) (motor 0) (motor 1) (milli (pos 60000)) (
    new_pid_of_values (milli (pos 500000)) (milli (pos 100)) (milli (pos 0)) (milli (pos 9000))
      (milli (pos 90000)))

abbrev still : Pointer → Milli
still p = milli (pos 300)

abbrev moved : Pointer → Milli
moved p = milli (pos 400)

ctrl_loops-anew_example :
    (ctrl_loops milli_eigen (still ∷ moved ∷ still ∷ []) chassis []).1
    ≡ each_anew milli_eigen (still ∷ moved ∷ still ∷ []) chassis []
ctrl_loops-anew_example = ctrl_loops-anew milli_eigen (still ∷ moved ∷ still ∷ []) chassis []
