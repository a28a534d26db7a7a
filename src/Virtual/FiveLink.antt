-- ===== src/Virtual/FiveLink.antt =====
-- `class FiveLink` of src/virtual/five_link.hpp and src/virtual/five_link.cc: the leg of two driven joints,
-- from the angles of its two motors to its length and direction, and from a force on the foot to the
-- torques of the motors. The products of Eigen are a parameter.
pub mod Kinematics
pub mod Examples
use robo_band.Base.{ℕ, List, ◌++◌}
use robo_band.Base.Int.{pos}
use robo_band.Base.Float.{Float, ◌+ᶠ◌, ◌-ᶠ◌, ◌*ᶠ◌, ◌/ᶠ◌, zero_float}
use robo_band.Base.Float.Trig.{Trig}
use robo_band.Virtual.Pointer.{Pointer}
use robo_band.Virtual.Motor.{Motor, MotorBinder, get_angle, new_motor, send}
use robo_band.Virtual.Motor

-- `Eigen::Matrix<float, 2, 2>`, by rows, and `Eigen::Vector<float, 2>`.
pub record Matrix2 {ℓ} (F : Type ℓ) : Type ℓ where
  pub m00 : F
  pub m01 : F
  pub m10 : F
  pub m11 : F

pub record Vector2 {ℓ} (F : Type ℓ) : Type ℓ where
  pub v0 : F
  pub v1 : F

pub record FiveLink {ℓ κ} (F : Type ℓ) (W : Type κ) : Type (ℓ ⊔ κ) where
  pub l_a : F
  pub l_b : F
  pub l_c : F
  pub l : F
  pub dot_l : F
  pub theta_l : F
  pub dot_theta_l : F
  pub motor1 : Motor F W
  pub motor2 : Motor F W
  pub varphi_1 : F
  pub varphi_2 : F
  pub varphi_b_1 : F
  pub x_b_2 : F
  pub y_b_2 : F
  pub x_c : F
  pub y_c : F
  pub jacobian_trans : Matrix2 F

module _ {ℓ κ} {F : Type ℓ} {W : Type κ} where
  -- `bind`, with the pointers that the motors delete.
  unfoldable pub bind :
      FiveLink F W → MotorBinder F W → MotorBinder F W → FiveLink F W × List Pointer
  bind leg binder1 binder2 =
      let (motor1, deleted1) = Motor.bind leg.motor1 binder1 in
      let (motor2, deleted2) = Motor.bind leg.motor2 binder2 in
      (record leg { motor1 = motor1; motor2 = motor2 }, deleted1 ++ deleted2)

module _ {ℓ κ} {F : Type ℓ} ⦃f : Float F⦄ {W : Type κ} where
  -- A leg whose motors got these addresses. `raw` stands in the matrix, which has no initialiser.
  unfoldable pub new_five_link : F → F → F → Matrix2 F → Motor F W → Motor F W → FiveLink F W
  new_five_link l_a l_b l_c raw motor1 motor2 = record {
    l_a = l_a;
    l_b = l_b;
    l_c = l_c;
    l = zero_float;
    dot_l = zero_float;
    theta_l = zero_float;
    dot_theta_l = zero_float;
    motor1 = motor1;
    motor2 = motor2;
    varphi_1 = zero_float;
    varphi_2 = zero_float;
    varphi_b_1 = zero_float;
    x_b_2 = zero_float;
    y_b_2 = zero_float;
    x_c = zero_float;
    y_c = zero_float;
    jacobian_trans = raw;
  }

module _ {ℓ κ} {F : Type ℓ} ⦃f : Float F⦄ ⦃t : Trig F⦄ {W : Type κ} where
  unfoldable pub forward_solve : FiveLink F W → FiveLink F W
  forward_solve leg =
      let x_b_1 = leg.l_a -ᶠ leg.l_b *ᶠ t.cos leg.varphi_1 in
      let x_b_2 = f.neg leg.l_a +ᶠ leg.l_b *ᶠ t.cos leg.varphi_2 in
      let y_b_1 = leg.l_b *ᶠ t.sin leg.varphi_1 in
      let y_b_2 = leg.l_b *ᶠ t.sin leg.varphi_2 in
      let x_b = x_b_1 -ᶠ x_b_2 in
      let y_b = y_b_1 -ᶠ y_b_2 in
      let varphi_b_1 =
        t.acos (t.sqrt (x_b *ᶠ x_b +ᶠ y_b *ᶠ y_b) /ᶠ (f.of_int (pos 2) *ᶠ leg.l_c))
        -ᶠ t.atan2 y_b x_b in
      let x_c = leg.l_a -ᶠ leg.l_b *ᶠ t.cos leg.varphi_1 -ᶠ leg.l_c *ᶠ t.cos varphi_b_1 in
      let y_c = leg.l_b *ᶠ t.sin leg.varphi_1 +ᶠ leg.l_c *ᶠ t.sin varphi_b_1 in
      record leg {
        x_b_2 = x_b_2;
        y_b_2 = y_b_2;
        varphi_b_1 = varphi_b_1;
        x_c = x_c;
        y_c = y_c;
        l = t.sqrt (x_c *ᶠ x_c +ᶠ y_c *ᶠ y_c);
        theta_l = t.atan2 x_c y_c;
      }

  unfoldable pub jacobian_calc : FiveLink F W → FiveLink F W
  jacobian_calc leg =
      let l_b_over_l = leg.l_b /ᶠ leg.l in
      let varphi_b_2 = t.atan2 (leg.y_c -ᶠ leg.y_b_2) (leg.x_c -ᶠ leg.x_b_2) in
      let sin_sum = t.sin (leg.varphi_b_1 +ᶠ varphi_b_2) in
      let sin_1 = t.sin (leg.varphi_1 -ᶠ leg.varphi_b_1) in
      let sin_2 = t.sin (leg.varphi_2 -ᶠ varphi_b_2) in
      record leg {
        jacobian_trans = record {
          m00 = f.neg leg.l_b *ᶠ t.cos (leg.theta_l +ᶠ varphi_b_2) *ᶠ sin_1 /ᶠ sin_sum;
          m01 = l_b_over_l *ᶠ t.sin (leg.theta_l +ᶠ varphi_b_2) *ᶠ sin_1 /ᶠ sin_sum;
          m10 = f.neg leg.l_b *ᶠ t.cos (leg.theta_l -ᶠ leg.varphi_b_1) *ᶠ sin_2 /ᶠ sin_sum;
          m11 = l_b_over_l *ᶠ t.sin (leg.theta_l -ᶠ leg.varphi_b_1) *ᶠ sin_2 /ᶠ sin_sum;
        };
      }

  module _ (product : Matrix2 F → Vector2 F → Vector2 F) where
    -- `update`, over the memory that the motors point to.
    unfoldable pub update : (Pointer → F) → FiveLink F W → FiveLink F W
    update memory leg =
        let varphi_1 = get_angle leg.motor1 memory in
        let varphi_2 = get_angle leg.motor2 memory in
        let solved =
          jacobian_calc (forward_solve (record leg { varphi_1 = varphi_1; varphi_2 = varphi_2 })) in
        let task = product solved.jacobian_trans (record { v0 = varphi_1; v1 = varphi_2 }) in
        record solved { dot_l = task.v0; dot_theta_l = task.v1 }

    -- `setForce`: the state of the devices after the two torques were sent.
    unfoldable pub set_force : FiveLink F W → F → F → W → W
    set_force leg f_n tau_j w =
        let force_actual = product leg.jacobian_trans (record { v0 = f_n; v1 = tau_j }) in
        (send force_actual.v1 leg.motor2 (send force_actual.v0 leg.motor1 w).0).0
