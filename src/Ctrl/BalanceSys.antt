-- ===== src/Ctrl/BalanceSys.antt =====
-- `BalanceSys::ctrlLoop` of src/ctrl/balance_sys/balance_sys.hpp and
-- src/ctrl/balance_sys/balance_sys.cc: the state of the robot from its virtual devices, and the torques
-- of its motors. The product of the gain matrix with a vector is that of the library Eigen, a
-- parameter. The constructor and the numbers for plotting are in Create.
pub mod Limits
pub mod Create
pub mod Plot
pub mod Examples
use robo_band.Base.{ℕ}
use robo_band.Base.Int.{pos}
use robo_band.Base.Float.{Float, ◌+ᶠ◌, ◌-ᶠ◌, ◌*ᶠ◌, ◌/ᶠ◌, zero_float}
use robo_band.Util.Math.{abs_limit}

-- The constants of a controller.
pub record BalanceSys {ℓ} (F : Type ℓ) : Type ℓ where
  pub radius_wheel : F
  pub s_ref_max : F
  pub phi_ref_max : F
  pub theta_l_ref_max : F
  pub theta_b_ref_max : F
  pub wheel_torque_max : F
  pub joint_torque_max : F

-- What `getAngle` and `getSpeed` of the virtual devices give during a call.
pub record Readings {ℓ} (F : Type ℓ) : Type ℓ where
  pub wheel_angle_0 : F
  pub wheel_angle_1 : F
  pub wheel_speed_0 : F
  pub wheel_speed_1 : F
  pub joint_angle_0 : F
  pub joint_angle_1 : F
  pub joint_speed_0 : F
  pub joint_speed_1 : F
  pub yaw : F
  pub yaw_speed : F
  pub pitch : F
  pub pitch_speed : F

-- `state_ref`, or the difference of two states.
pub record State {ℓ} (F : Type ℓ) : Type ℓ where
  pub s : F
  pub dot_s : F
  pub phi : F
  pub dot_phi : F
  pub theta_l_1 : F
  pub dot_theta_l_1 : F
  pub theta_l_2 : F
  pub dot_theta_l_2 : F
  pub theta_b : F
  pub dot_theta_b : F

-- Four values: `ctrl_vec`, or the torques of the wheels and the joints.
pub record Torques {ℓ} (F : Type ℓ) : Type ℓ where
  pub wheel_0 : F
  pub wheel_1 : F
  pub joint_0 : F
  pub joint_1 : F

module _ {ℓ} {F : Type ℓ} ⦃f : Float F⦄ where
  -- `state_set - state_ref`, where `state_set` is all zeros.
  unfoldable pub state_error : State F → State F
  state_error x = record {
    s = zero_float -ᶠ x.s;
    dot_s = zero_float -ᶠ x.dot_s;
    phi = zero_float -ᶠ x.phi;
    dot_phi = zero_float -ᶠ x.dot_phi;
    theta_l_1 = zero_float -ᶠ x.theta_l_1;
    dot_theta_l_1 = zero_float -ᶠ x.dot_theta_l_1;
    theta_l_2 = zero_float -ᶠ x.theta_l_2;
    dot_theta_l_2 = zero_float -ᶠ x.dot_theta_l_2;
    theta_b = zero_float -ᶠ x.theta_b;
    dot_theta_b = zero_float -ᶠ x.dot_theta_b;
  }

module _ {ℓ} {F : Type ℓ} ⦃f : Float F⦄ (c : BalanceSys F) where
  unfoldable pub state_ref : Readings F → State F
  state_ref r = record {
    s =
        abs_limit ((r.wheel_angle_0 +ᶠ r.wheel_angle_1) *ᶠ c.radius_wheel /ᶠ f.of_int (pos 2))
          c.s_ref_max;
    dot_s = (r.wheel_speed_0 +ᶠ r.wheel_speed_1) *ᶠ c.radius_wheel /ᶠ f.of_int (pos 2);
    phi = abs_limit r.yaw c.phi_ref_max;
    dot_phi = r.yaw_speed;
    theta_l_1 = abs_limit (r.pitch +ᶠ r.joint_angle_0) c.theta_l_ref_max;
    dot_theta_l_1 = r.pitch_speed +ᶠ r.joint_speed_0;
    theta_l_2 = abs_limit (r.pitch +ᶠ r.joint_angle_1) c.theta_l_ref_max;
    dot_theta_l_2 = r.pitch_speed +ᶠ r.joint_speed_1;
    theta_b = abs_limit r.pitch c.theta_b_ref_max;
    dot_theta_b = r.pitch_speed;
  }

  -- The torques that are set, for the product with K.
  unfoldable pub ctrl_loop : (State F → Torques F) → Readings F → Torques F
  unfolding state_ref state_error
  ctrl_loop k_times r =
      let ctrl_vec = k_times (state_error (state_ref r)) in
      record {
        wheel_0 = abs_limit ctrl_vec.wheel_0 c.wheel_torque_max;
        wheel_1 = abs_limit ctrl_vec.wheel_1 c.wheel_torque_max;
        joint_0 = abs_limit ctrl_vec.joint_0 c.joint_torque_max;
        joint_1 = abs_limit ctrl_vec.joint_1 c.joint_torque_max;
      }
