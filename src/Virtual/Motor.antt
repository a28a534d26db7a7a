-- ===== src/Virtual/Motor.antt =====
-- `class Motor` of src/virtual/motor.hpp. W is the state that setting a torque changes. A method gives
-- the object after the call and the pointers that the call deletes. Log lines are left out.
pub mod Lifetime
pub mod Examples
use robo_band.Base.{
  ℕ, suc, ◌+◌, Bool, true, false, Option, none, some, List, [], ◌∷◌, ◌++◌, if◌then◌else◌,
}
use robo_band.Virtual.Pointer.{Pointer, owned}

-- `actual` is the address of the device; `none` is the null pointer.
pub record MotorBinder {ℓ κ} (F : Type ℓ) (W : Type κ) : Type (ℓ ⊔ κ) where
  pub set_torque : F → W → W
  pub angle : Pointer
  pub speed : Pointer
  pub actual : Option ℕ

pub record Motor {ℓ κ} (F : Type ℓ) (W : Type κ) : Type (ℓ ⊔ κ) where
  pub set_torque : F → W → W
  pub angle : Pointer
  pub speed : Pointer
  pub actual : Option ℕ

module _ {ℓ κ} {F : Type ℓ} {W : Type κ} where
  -- `setTorqueDefault` only logs.
  abbrev pub set_torque_default : F → W → W
  set_torque_default torque w = w

  -- A motor that got the addresses a and s for its angle and its speed.
  unfoldable pub new_motor : ℕ → ℕ → Motor F W
  new_motor a s = record {
    set_torque = set_torque_default;
    angle = owned a;
    speed = owned s;
    actual = none;
  }

  unfoldable pub is_bound : Motor F W → Bool
  is_bound m = elim m.actual [ none ↦ false | some _ ↦ true ]

  unfoldable pub bind : Motor F W → MotorBinder F W → Motor F W × List Pointer
  unfolding is_bound
  bind m binder = (
    record {
      set_torque = binder.set_torque;
      angle = binder.angle;
      speed = binder.speed;
      actual = binder.actual;
    },
    if is_bound m then [] else m.angle ∷ m.speed ∷ [],
  )

  unfoldable pub destroy : Motor F W → List Pointer
  unfolding is_bound
  destroy m = if is_bound m then [] else m.angle ∷ m.speed ∷ []

  -- `getAngle` and `getSpeed`, over the memory.
  unfoldable pub get_angle : Motor F W → (Pointer → F) → F
  get_angle m memory = memory m.angle

  unfoldable pub get_speed : Motor F W → (Pointer → F) → F
  get_speed m memory = memory m.speed

  -- `operator>>(float, Motor &)`: the state after, and the torque.
  unfoldable pub send : F → Motor F W → W → W × F
  send torque m w = (m.set_torque torque w, torque)

  -- `operator>>(float *, Motor &)` on an array and an index; `torque++` gives the old pointer.
  unfoldable pub send_next : (ℕ → F) → ℕ → Motor F W → W → W × ℕ
  send_next torques i m w = (m.set_torque (torques i) w, i)
