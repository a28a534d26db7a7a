-- ===== src/Ctrl/BalanceSys/Limits.antt =====
-- The limits of the balance controller.
use robo_band.Base.{◌≡◌, ap, ◌∙◌}
use robo_band.Base.Int.{pos}
use robo_band.Base.Float.{Float, IsOrdered, ◌+ᶠ◌, ◌*ᶠ◌, ◌/ᶠ◌}
use robo_band.Util.Math.{abs_limit}
use robo_band.Util.Math.Laws.{abs_limit-Within, abs_limit-inside}
use robo_band.Util.Pid.Bounds.{Within, Stays, IsLimit, Within-Stays}
use robo_band.Ctrl.BalanceSys.{
  BalanceSys, Readings, State, Torques, state_ref, state_error, ctrl_loop,
}

module _ {ℓ} {F : Type ℓ} ⦃f : Float F⦄ where
  -- The limits of a controller are numbers that are not negative.
  pub record HasLimits (c : BalanceSys F) : Type 0 where
    pub s_ref : IsLimit c.s_ref_max
    pub phi_ref : IsLimit c.phi_ref_max
    pub theta_l_ref : IsLimit c.theta_l_ref_max
    pub theta_b_ref : IsLimit c.theta_b_ref_max
    pub wheel_torque : IsLimit c.wheel_torque_max
    pub joint_torque : IsLimit c.joint_torque_max

  -- The positions and the angles of a state, each with its limit.
  abbrev pub EachState : (F → F → Type 0) → BalanceSys F → State F → Type 0
  EachState P c x =
      P c.s_ref_max x.s
      × P c.phi_ref_max x.phi
      × P c.theta_l_ref_max x.theta_l_1
      × P c.theta_l_ref_max x.theta_l_2
      × P c.theta_b_ref_max x.theta_b

  abbrev pub EachTorque : (F → F → Type 0) → BalanceSys F → Torques F → Type 0
  EachTorque P c t =
      P c.wheel_torque_max t.wheel_0
      × P c.wheel_torque_max t.wheel_1
      × P c.joint_torque_max t.joint_0
      × P c.joint_torque_max t.joint_1

  abs_limit-Stays : (laws : IsOrdered F) (x lim : F) → IsLimit lim → Stays lim (abs_limit x lim)
  abs_limit-Stays laws x lim h =
      Within-Stays laws lim (abs_limit x lim) h (abs_limit-Within laws x lim h.not_negative)

  -- Given the order laws of floats, and limits that are numbers and not negative: whatever the devices
  -- report and whatever the gains are, each torque that is set, and each position and angle that enters
  -- the feedback, is a NaN or lies from the negation of its limit to its limit.
  pub ctrl_loop-limits :
      (laws : IsOrdered F) (c : BalanceSys F) (k_times : State F → Torques F) (r : Readings F)
      → HasLimits c
      → EachState Stays c (state_ref c r) × EachTorque Stays c (ctrl_loop c k_times r)
  unfolding state_ref ctrl_loop
  ctrl_loop-limits laws c k_times r h = (
    (
      abs_limit-Stays laws _ c.s_ref_max h.s_ref,
      abs_limit-Stays laws _ c.phi_ref_max h.phi_ref,
      abs_limit-Stays laws _ c.theta_l_ref_max h.theta_l_ref,
      abs_limit-Stays laws _ c.theta_l_ref_max h.theta_l_ref,
      abs_limit-Stays laws _ c.theta_b_ref_max h.theta_b_ref,
    ),
    (
      abs_limit-Stays laws _ c.wheel_torque_max h.wheel_torque,
      abs_limit-Stays laws _ c.wheel_torque_max h.wheel_torque,
      abs_limit-Stays laws _ c.joint_torque_max h.joint_torque,
      abs_limit-Stays laws _ c.joint_torque_max h.joint_torque,
    ),
  )

  -- The state by the geometry of the robot: the way that the wheels rolled, the yaw, the angles of
  -- the legs to the ground, the pitch, and their speeds.
  abbrev pub estimate : F → Readings F → State F
  estimate radius r =
      let mean : F → F → F = λ a b. (a +ᶠ b) *ᶠ radius /ᶠ f.of_int (pos 2) in
      record {
        s = mean r.wheel_angle_0 r.wheel_angle_1;
        dot_s = mean r.wheel_speed_0 r.wheel_speed_1;
        phi = r.yaw;
        dot_phi = r.yaw_speed;
        theta_l_1 = r.pitch +ᶠ r.joint_angle_0;
        dot_theta_l_1 = r.pitch_speed +ᶠ r.joint_speed_0;
        theta_l_2 = r.pitch +ᶠ r.joint_angle_1;
        dot_theta_l_2 = r.pitch_speed +ᶠ r.joint_speed_1;
        theta_b = r.pitch;
        dot_theta_b = r.pitch_speed;
      }

  state_ref-estimate :
      (c : BalanceSys F) (r : Readings F)
      → EachState Within c (estimate c.radius_wheel r)
      → state_ref c r ≡ estimate c.radius_wheel r
  unfolding state_ref
  state_ref-estimate c r (s, phi, theta_1, theta_2, theta_b) = rw (
    abs_limit-inside _ c.s_ref_max s,
    abs_limit-inside _ c.phi_ref_max phi,
    abs_limit-inside _ c.theta_l_ref_max theta_1,
    abs_limit-inside _ c.theta_l_ref_max theta_2,
    abs_limit-inside _ c.theta_b_ref_max theta_b,
  )

  abbrev limit_torques : BalanceSys F → Torques F → Torques F
  limit_torques c t = record {
    wheel_0 = abs_limit t.wheel_0 c.wheel_torque_max;
    wheel_1 = abs_limit t.wheel_1 c.wheel_torque_max;
    joint_0 = abs_limit t.joint_0 c.joint_torque_max;
    joint_1 = abs_limit t.joint_1 c.joint_torque_max;
  }

  limit_torques-inside :
      (c : BalanceSys F) (t : Torques F) → EachTorque Within c t → limit_torques c t ≡ t
  limit_torques-inside c t (w0, w1, j0, j1) = rw (
    abs_limit-inside t.wheel_0 c.wheel_torque_max w0,
    abs_limit-inside t.wheel_1 c.wheel_torque_max w1,
    abs_limit-inside t.joint_0 c.joint_torque_max j0,
    abs_limit-inside t.joint_1 c.joint_torque_max j1,
  )

  -- As long as neither the state nor the feedback K (0 - x) meets a limit, the torques that are set
  -- are exactly that feedback of the state x by the geometry of the robot.
  pub ctrl_loop-feedback :
      (c : BalanceSys F) (k_times : State F → Torques F) (r : Readings F)
      → EachState Within c (estimate c.radius_wheel r)
      → EachTorque Within c (k_times (state_error (estimate c.radius_wheel r)))
      → ctrl_loop c k_times r ≡ k_times (state_error (estimate c.radius_wheel r))
  unfolding ctrl_loop
  ctrl_loop-feedback c k_times r inside within =
      let feedback : State F → Torques F = λ x. k_times (state_error x) in
      ap (λ (x : State F). limit_torques c (feedback x)) (state_ref-estimate c r inside)
      ∙ limit_torques-inside c (feedback (estimate c.radius_wheel r)) within
