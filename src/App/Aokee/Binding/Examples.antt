-- ===== src/App/Aokee/Binding/Examples.antt =====
-- Six motors that log the torques that they get.
use robo_band.Base.{ℕ, ◌≡◌, refl, List, [], ◌∷◌, length, some}
use robo_band.Base.Int.{pos}
use robo_band.Base.Float.Milli.{Milli, milli, milli_float}
use robo_band.Base.Float.Crude.{crude_trig}
use robo_band.Util.Pid.{new_pid_of_values}
use robo_band.Virtual.Pointer.{Pointer, member}
use robo_band.Virtual.Motor.{Motor, MotorBinder, new_motor, is_bound}
use robo_band.Virtual.Motor
use robo_band.Virtual.FiveLink.{FiveLink, new_five_link}
use robo_band.Ctrl.WheelLeggedChassis.{WheelLeggedChassis, new_wheel_legged_chassis}
use robo_band.App.Aokee.Binding.{bind_virtual_dev}

abbrev Log : Type 0
Log = List (ℕ × Milli)

abbrev binder : ℕ → MotorBinder Milli Log
binder i = record {
  set_torque = λ torque log. (i, torque) ∷ log;
  angle = member i;
  speed = member 9;
  actual = some i;
}

abbrev leg : ℕ → FiveLink Milli Log
leg i =
    let zero = milli (pos 0) in
    new_five_link (milli (pos 75)) (milli (pos 140)) (milli (pos 240))
      (record { m00 = zero; m01 = zero; m10 = zero; m11 = zero }) (new_motor i i) (new_motor i i)

abbrev chassis : WheelLeggedChassis Milli Log
chassis =
    new_wheel_legged_chassis (leg 0) (leg 1) (new_motor 2 2) (new_motor 3 3) (milli (pos 60000)) (
      new_pid_of_values (milli (pos 500000)) (milli (pos 100)) (milli (pos 0)) (milli (pos 9000))
        (milli (pos 90000)))

abbrev memory : Pointer → Milli
memory p = milli (pos 300)

-- Twelve pointers are deleted the first time, and none the second time.
deleted : length (bind_virtual_dev binder chassis).1 ≡ 12
unfolding bind_virtual_dev Motor.bind new_wheel_legged_chassis new_five_link new_motor is_bound
deleted = refl

deleted_again : (bind_virtual_dev binder (bind_virtual_dev binder chassis).0).1 ≡ []
unfolding bind_virtual_dev Motor.bind is_bound
deleted_again = refl
