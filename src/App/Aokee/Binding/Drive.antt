-- ===== src/App/Aokee/Binding/Drive.antt =====
-- The bound chassis of Aokee: from what the six motors report to the torques that they get.
use robo_band.Base.{ℕ, ◌≡◌, refl}
use robo_band.Base.Float.{Float, ◌+ᶠ◌, ◌*ᶠ◌, zero_float}
use robo_band.Base.Float.Trig.{Trig}
use robo_band.Util.Siso.{feed}
use robo_band.Virtual.Pointer.{Pointer}
use robo_band.Virtual.Motor.{MotorBinder, bind, send}
use robo_band.Virtual.FiveLink.{Matrix2, FiveLink, update, set_force}
use robo_band.Virtual.FiveLink
use robo_band.Virtual.FiveLink.Kinematics.{IsProduct, leg_length, at_devices, bound-force}
use robo_band.Ctrl.WheelLeggedChassis.{WheelLeggedChassis, Eigen, leg_forces, ctrl_loop}
use robo_band.App.Aokee.Binding.{bind_virtual_dev}

module _ {F W : Type 0} ⦃f : Float F⦄ ⦃t : Trig F⦄ (binder : ℕ → MotorBinder F W) where
  -- A force along a leg, sent to two of the motors.
  abbrev pub push : FiveLink F W → ℕ → ℕ → (Pointer → F) → F → W → W
  push leg i j memory force w =
      let m = at_devices leg (binder i) (binder j) memory in
      (binder j).set_torque (m.m10 *ᶠ force +ᶠ m.m11 *ᶠ zero_float)
        ((binder i).set_torque (m.m00 *ᶠ force +ᶠ m.m01 *ᶠ zero_float) w)

  abbrev pub length_at : FiveLink F W → ℕ → ℕ → (Pointer → F) → F
  length_at leg i j memory =
      leg_length leg.l_a leg.l_b leg.l_c (memory (binder i).angle) (memory (binder j).angle)

  -- For a product as Eigen documents it: after `bindVirtualDev`, a call of the control loop turns the angles
  -- that the motors 2 and 3 report, and those of 5 and 4, into the lengths of the left and the right leg;
  -- from these it takes the two leg forces, which the motors 2 and 3 get as torques, in this order, then
  -- 5 and 4; and the wheels, 0 and 1, get none.
  pub ctrl_loop-bound :
      (eigen : Eigen F) (chassis : WheelLeggedChassis F W) (memory : Pointer → F) (w : W)
      → IsProduct eigen.times2
      → let force =
          leg_forces eigen chassis
            (length_at chassis.leg_0 2 3 memory)
            (length_at chassis.leg_1 5 4 memory) in
        (ctrl_loop eigen memory (bind_virtual_dev binder chassis).0 w).1
        ≡ (binder 1).set_torque zero_float (
            (binder 0).set_torque zero_float
              (push chassis.leg_1 5 4 memory force.v1 (push chassis.leg_0 2 3 memory force.v0 w)))
  unfolding ctrl_loop leg_forces bind_virtual_dev send bind FiveLink.bind set_force feed
  ctrl_loop-bound eigen chassis memory w product =
      let force =
        leg_forces eigen chassis (length_at chassis.leg_0 2 3 memory)
          (length_at chassis.leg_1 5 4 memory) in
      let left = push chassis.leg_0 2 3 memory force.v0 w in
      let (length_0, _, _, _, sent_0) =
        bound-force eigen.times2 chassis.leg_0 (binder 2) (binder 3) memory force.v0 zero_float w
          product in
      let (length_1, _, _, _, sent_1) =
        bound-force eigen.times2 chassis.leg_1 (binder 5) (binder 4) memory force.v1 zero_float left
          product in
      rw (length_0, length_1) (rw (sent_0, sent_1) refl)
