-- ===== src/Virtual/Imu.antt =====
-- `class Imu` of src/virtual/imu.hpp. A method gives the object after the call and the pointers to
-- arrays that the call deletes. Log lines are left out.
pub mod Lifetime
pub mod Examples
use robo_band.Base.{ℕ, Bool, true, false, List, [], ◌∷◌, if◌then◌else◌}
use robo_band.Virtual.Pointer.{Pointer, owned}

pub record ImuBinder : Type 0 where
  pub angle : Pointer
  pub speed : Pointer

pub record Imu : Type 0 where
  pub is_bound : Bool
  pub angle : Pointer
  pub speed : Pointer

-- `enum ImuId`, as the index that it stands for.
pub data ImuId : Type 0 where
  roll pitch yaw : ImuId

abbrev pub index : ImuId → ℕ
index roll = 0
index pitch = 1
index yaw = 2

-- An IMU that got the addresses a and s for its arrays.
unfoldable pub new_imu : ℕ → ℕ → Imu
new_imu a s = record { is_bound = false; angle = owned a; speed = owned s }

unfoldable pub bind : Imu → ImuBinder → Imu × List Pointer
bind imu binder = (
  record { is_bound = true; angle = binder.angle; speed = binder.speed },
  if imu.is_bound then [] else imu.angle ∷ imu.speed ∷ [],
)

unfoldable pub destroy : Imu → List Pointer
destroy imu = if imu.is_bound then [] else imu.angle ∷ imu.speed ∷ []

-- `getAngle` and `getSpeed`, over the memory of the arrays.
unfoldable pub get_angle {ℓ} : {F : Type ℓ} → Imu → (Pointer → ℕ → F) → ImuId → F
get_angle imu memory id = memory imu.angle (index id)

unfoldable pub get_speed {ℓ} : {F : Type ℓ} → Imu → (Pointer → ℕ → F) → ImuId → F
get_speed imu memory id = memory imu.speed (index id)
