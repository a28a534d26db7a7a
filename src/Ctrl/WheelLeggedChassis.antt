-- ===== src/Ctrl/WheelLeggedChassis.antt =====
-- `class WheelLeggedChassis` of src/ctrl/wheel_legged_chassis/wheel_legged_chassis.hpp, with FiveLink for its
-- legs: the control loop from the angles of the joints to the torques. The products of Eigen are a
-- parameter.
pub mod History
pub mod Products
pub mod Examples
use robo_band.Base.{List, [], ◌∷◌}
use robo_band.Base.Int.{pos}
use robo_band.Base.Float.{Float, ◌+ᶠ◌, ◌-ᶠ◌, ◌*ᶠ◌, zero_float}
use robo_band.Base.Float.Trig.{Trig}
use robo_band.Util.Siso.{Out, feed}
use robo_band.Util.Pid.{Pid, pid_siso}
use robo_band.Virtual.Pointer.{Pointer}
use robo_band.Virtual.Motor.{Motor, send}
use robo_band.Virtual.FiveLink.{Matrix2, Vector2, FiveLink, update, set_force}

-- `Eigen::Vector<float, 4>`, and `Eigen::Matrix<float, 2, 4>` by rows.
pub record Vector4 {ℓ} (F : Type ℓ) : Type ℓ where
  pub v0 : F
  pub v1 : F
  pub v2 : F
  pub v3 : F

pub record Matrix24 {ℓ} (F : Type ℓ) : Type ℓ where
  pub row0 : Vector4 F
  pub row1 : Vector4 F

-- The two products that the code calls.
pub record Eigen {ℓ} (F : Type ℓ) : Type ℓ where
  pub times2 : Matrix2 F → Vector2 F → Vector2 F
  pub times24 : Matrix24 F → Vector4 F → Vector2 F

pub record WheelLeggedChassis {ℓ κ} (F : Type ℓ) (W : Type κ) : Type (ℓ ⊔ κ) where
  pub leg_0 : FiveLink F W
  pub leg_1 : FiveLink F W
  pub wheel_0 : Motor F W
  pub wheel_1 : Motor F W
  pub f_gravity : F
  pub pid_l : Pid F

-- A chassis of these parts.
unfoldable pub new_wheel_legged_chassis {ℓ κ} :
    {F : Type ℓ} {W : Type κ}
    → FiveLink F W
    → FiveLink F W
    → Motor F W
    → Motor F W
    → F
    → Pid F
    → WheelLeggedChassis F W
new_wheel_legged_chassis leg_0 leg_1 wheel_0 wheel_1 f_gravity pid_l = record {
  leg_0 = leg_0;
  leg_1 = leg_1;
  wheel_0 = wheel_0;
  wheel_1 = wheel_1;
  f_gravity = f_gravity;
  pid_l = pid_l;
}

module _ {ℓ} {F : Type ℓ} ⦃f : Float F⦄ where
  -- `trans`: the array fills a matrix of four rows by its columns, which is transposed.
  abbrev pub trans : Matrix24 F
  trans =
      let one = f.of_int (pos 1) in
      let minus_one = f.neg (f.of_int (pos 1)) in
      record {
        row0 = record { v0 = one; v1 = one; v2 = one; v3 = minus_one };
        row1 = record { v0 = minus_one; v1 = one; v2 = one; v3 = one };
      }

module _ {ℓ κ} {F : Type ℓ} ⦃f : Float F⦄ ⦃t : Trig F⦄ {W : Type κ} (eigen : Eigen F) where
  -- `F_n`, for the lengths of the two legs.
  unfoldable pub leg_forces : WheelLeggedChassis F W → F → F → Vector2 F
  leg_forces c l_0 l_1 =
      let l_set = f.lit 25 100 in
      let f_l = (feed (l_set -ᶠ f.lit 5 10 *ᶠ (l_0 +ᶠ l_1)) c.pid_l).o in
      eigen.times24 trans (record { v0 = zero_float; v1 = f_l; v2 = c.f_gravity; v3 = zero_float })

  -- `ctrlLoop`, over the memory that the motors point to: the object and the devices after it.
  unfoldable pub ctrl_loop : (Pointer → F) → WheelLeggedChassis F W → W → WheelLeggedChassis F W × W
  unfolding leg_forces
  ctrl_loop memory c w =
      let leg_0 = update eigen.times2 memory c.leg_0 in
      let leg_1 = update eigen.times2 memory c.leg_1 in
      let f_n = leg_forces c leg_0.l leg_1.l in
      let w_0 = set_force eigen.times2 leg_0 f_n.v0 zero_float w in
      let w_1 = set_force eigen.times2 leg_1 f_n.v1 zero_float w_0 in
      let w_2 = (send zero_float c.wheel_0 w_1).0 in
      (record c { leg_0 = leg_0; leg_1 = leg_1 }, (send zero_float c.wheel_1 w_2).0)

  -- One call after another, each with the memory that it meets.
  unfoldable pub ctrl_loops :
      List (Pointer → F) → WheelLeggedChassis F W → W → WheelLeggedChassis F W × W
  ctrl_loops [] c w = (c, w)
  ctrl_loops (memory ∷ memories) c w =
      let (c', w') = ctrl_loop memory c w in ctrl_loops memories c' w'
