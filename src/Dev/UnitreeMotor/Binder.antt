-- ===== src/Dev/UnitreeMotor/Binder.antt =====
-- The member `binder` of `UnitreeMotor` (src/dev/unitree_motor.hpp), for the motors of one port: what a
-- virtual motor reads and calls.
use robo_band.Base.{ℕ, ◌+◌, ◌*◌, ◌/◌, ◌%◌, List, ◌∷◌, some, if◌then◌else◌, ◌==◌}
use robo_band.Base.Float.{Float}
use robo_band.Virtual.Pointer.{Pointer, owned, member}
use robo_band.Virtual.Motor.{MotorBinder}
use robo_band.Dev.UnitreeMotor.{UnitreeMotor, set_torque}
use robo_band.Dev.UnitreeMotor.Bus.{update}

-- The motors by their places, and the frames that were sent, the latest first.
pub record Port (F : Type 0) : Type 0 where
  pub motors : ℕ → UnitreeMotor F
  pub sent : List (List ℕ)

module _ {F : Type 0} ⦃f : Float F⦄ where
  -- The members that pointers lead to: two for each motor.
  abbrev pub memory : (ℕ → UnitreeMotor F) → (ℕ → F) → Pointer → F
  memory motors rest (owned p) = rest p
  memory motors rest (member p) =
      if p % 2 == 0 then (motors (p / 2)).angle else (motors (p / 2)).speed

  module _ (crc : List ℕ → ℕ) where
    unfoldable pub binder : ℕ → MotorBinder F (Port F)
    binder i = record {
      set_torque = λ torque port.
          let (m, bytes) = set_torque crc (port.motors i) torque in
          record { motors = update port.motors i m; sent = bytes ∷ port.sent };
      angle = member (2 * i);
      speed = member (2 * i + 1);
      actual = some i;
    }
