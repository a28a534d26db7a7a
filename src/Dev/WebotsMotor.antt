-- ===== src/Dev/WebotsMotor.antt =====
-- `class WebotsMotor` of src/dev/webots_motor.hpp and src/dev/webots_motor.cc, with the two accessors of
-- src/io/webots.cc that it uses. What the simulated encoder gives is an argument.
pub mod Updates
pub mod Examples
use robo_band.Base.{ℕ, Option, none, some, List, [], ◌∷◌, if◌then◌else◌}
use robo_band.Base.Int.{ℤ, pos, negsuc, ◌-ℤ◌, eqb_ℤ}
use robo_band.Base.Float.{Float, ◌-ᶠ◌, ◌*ᶠ◌, ◌/ᶠ◌, zero_float}
use robo_band.Virtual.Pointer.{member}
use robo_band.Virtual.Motor.{MotorBinder}

pub record WebotsMotor {ℓ} (F : Type ℓ) : Type ℓ where
  pub dir : ℤ
  pub speed : F
  pub angle : F
  pub angle_last : F
  pub angle_offset : F
  pub time_last : ℤ

-- What an update meets: the time of the simulation, what the encoder gives, and what stands in the
-- two variables of `update`, which have no initialiser.
pub record Tick {ℓ} (F : Type ℓ) : Type ℓ where
  pub now : ℤ
  pub encoder : F
  pub raw_angle : F
  pub raw_time : ℤ

module _ {ℓ} {F : Type ℓ} ⦃f : Float F⦄ where
  unfoldable pub new_webots_motor : ℤ → WebotsMotor F
  new_webots_motor dir = record {
    dir = dir;
    speed = zero_float;
    angle = zero_float;
    angle_last = zero_float;
    angle_offset = zero_float;
    time_last = pos 0;
  }

  -- `Webots::motorSetTorque`: the torque that the simulated motor gets, if any.
  abbrev pub motor_set_torque : ℤ → F → Option F
  motor_set_torque now torque = if eqb_ℤ now (negsuc 0) then none else some torque

  unfoldable pub set_torque : ℤ → WebotsMotor F → F → Option F
  set_torque now m torque = motor_set_torque now (f.of_int m.dir *ᶠ torque)

  unfoldable pub set_angle_offset : WebotsMotor F → F → WebotsMotor F
  set_angle_offset m angle_offset = record m { angle_offset = f.of_int m.dir *ᶠ angle_offset }

  -- `Webots::encoderGetValue`: what the two references hold then.
  unfoldable pub encoder_get_value : Tick F → F × ℤ
  encoder_get_value t =
      if eqb_ℤ t.now (negsuc 0) then (t.raw_angle, t.raw_time) else (t.encoder, t.now)

  unfoldable pub update : WebotsMotor F → Tick F → WebotsMotor F
  unfolding encoder_get_value
  update m t =
      let (angle_tmp, time) = encoder_get_value t in
      let angle = f.of_int m.dir *ᶠ angle_tmp -ᶠ m.angle_offset in
      if eqb_ℤ time m.time_last then m else record m {
        angle = angle;
        speed = (angle -ᶠ m.angle_last) /ᶠ f.of_int (time -ℤ m.time_last);
        time_last = time;
        angle_last = angle;
      }

-- The binder of an object whose members are at these addresses; it names no device.
unfoldable pub binder {ℓ κ} : {F : Type ℓ} {W : Type κ} → (F → W → W) → ℕ → ℕ → MotorBinder F W
binder set_torque angle speed = record {
  set_torque = set_torque;
  angle = member angle;
  speed = member speed;
  actual = none;
}
