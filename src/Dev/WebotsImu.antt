-- ===== src/Dev/WebotsImu.antt =====
-- `class WebotsImu` of src/dev/webots_imu.hpp and src/dev/webots_imu.cc. What the simulated sensors give
-- is an argument; looking them up and enabling them are calls of the simulator and leave no trace.
pub mod Reading
pub mod Examples
use robo_band.Base.{ℕ, List}
use robo_band.Base.Int.{ℤ}
use robo_band.Io.Webots.{Webots, inertial_get_roll_pitch_yaw, gyro_get_values}
use robo_band.Dev.Bind.{bind_webots}
use robo_band.Virtual.Pointer.{member}
use robo_band.Virtual.Imu.{ImuBinder}

pub record WebotsImu {ℓ} (F : Type ℓ) : Type ℓ where
  pub angle : ℕ → F
  pub speed : ℕ → F

-- What `getRollPitchYaw` and `getValues` give.
pub record Sample {ℓ} (F : Type ℓ) : Type ℓ where
  pub roll_pitch_yaw : ℕ → F
  pub values : ℕ → F

-- The binder of an object whose two arrays are at these addresses.
unfoldable pub binder : ℕ → ℕ → ImuBinder
binder angle speed = record { angle = member angle; speed = member speed }

module _ {ℓ} {F : Type ℓ} where
  unfoldable pub update : ℤ → Sample F → WebotsImu F → WebotsImu F
  update time sample imu = record {
    angle = inertial_get_roll_pitch_yaw time sample.roll_pitch_yaw imu.angle;
    speed = gyro_get_values time sample.values imu.speed;
  }

-- The constructor: it adds the update to those of the simulator. `sample` gives what the sensors would
-- give in a state, and `put` changes the object in it.
unfoldable pub new_webots_imu {ℓ κ} :
    {F : Type ℓ} {W : Type κ}
    → (W → Sample F)
    → ((WebotsImu F → WebotsImu F) → W → W)
    → Webots W
    → Webots W
new_webots_imu sample put webots_io =
    bind_webots webots_io (λ time w. put (update time (sample w)) w)
