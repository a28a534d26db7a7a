-- ===== src/Virtual/FiveLink/Kinematics.antt =====
-- What a leg makes of the angles of its motors, and of a force.
use robo_band.Base.{◌≡◌, refl, ap}
use robo_band.Base.Int.{pos}
use robo_band.Base.Float.{Float, ◌+ᶠ◌, ◌-ᶠ◌, ◌*ᶠ◌, ◌/ᶠ◌}
use robo_band.Base.Float.Trig.{Trig}
use robo_band.Virtual.Pointer.{Pointer}
use robo_band.Virtual.Motor.{Motor, MotorBinder, get_angle, send}
use robo_band.Virtual.Motor
use robo_band.Virtual.FiveLink.{
  Matrix2, Vector2, FiveLink, bind, forward_solve, jacobian_calc, update, set_force,
}

module _ {F W : Type 0} where
  -- Two legs of the same build, on the same motors.
  pub record SameBuild (a b : FiveLink F W) : Type 0 where
    pub l_a : a.l_a ≡ b.l_a
    pub l_b : a.l_b ≡ b.l_b
    pub l_c : a.l_c ≡ b.l_c
    pub motor1 : a.motor1 ≡ b.motor1
    pub motor2 : a.motor2 ≡ b.motor2

module _ {F W : Type 0} ⦃f : Float F⦄ ⦃t : Trig F⦄
    (product : Matrix2 F → Vector2 F → Vector2 F) where
  -- `update` makes of the angles of the two motors the whole state of a leg: whatever two legs of the
  -- same build on the same motors computed before, and whatever the two memories hold besides the two
  -- angles, the speeds of the motors included, both legs are the same after it.
  pub update-angles_only :
      (a b : FiveLink F W) (memory memory' : Pointer → F)
      → SameBuild a b
      → memory a.motor1.angle ≡ memory' b.motor1.angle
      → memory a.motor2.angle ≡ memory' b.motor2.angle
      → update product memory a ≡ update product memory' b
  unfolding update get_angle forward_solve jacobian_calc
  update-angles_only a b memory memory' same one two =
      rw (one, two, same.l_a, same.l_b, same.l_c, same.motor1, same.motor2) refl

-- The pose of a leg with these lengths at these angles of its motors, and the matrix that turns a force
-- along the leg and a torque about the hip into the torques of the motors, in closed form.
module _ {F : Type 0} ⦃f : Float F⦄ ⦃t : Trig F⦄ (l_a l_b l_c a1 a2 : F) where
  -- The knees, the first from the right hip and the second from the left one.
  abbrev knee_1 : F × F
  knee_1 = (l_a -ᶠ l_b *ᶠ t.cos a1, l_b *ᶠ t.sin a1)

  abbrev knee_2 : F × F
  knee_2 = (f.neg l_a +ᶠ l_b *ᶠ t.cos a2, l_b *ᶠ t.sin a2)

  -- The angle of the first shank.
  abbrev shank_1 : F
  shank_1 =
      let x = knee_1.0 -ᶠ knee_2.0 in
      let y = knee_1.1 -ᶠ knee_2.1 in
      t.acos (t.sqrt (x *ᶠ x +ᶠ y *ᶠ y) /ᶠ (f.of_int (pos 2) *ᶠ l_c)) -ᶠ t.atan2 y x

  abbrev foot : F × F
  foot = (knee_1.0 -ᶠ l_c *ᶠ t.cos shank_1, knee_1.1 +ᶠ l_c *ᶠ t.sin shank_1)

  abbrev pub leg_length : F
  leg_length = t.sqrt (foot.0 *ᶠ foot.0 +ᶠ foot.1 *ᶠ foot.1)

  abbrev pub leg_angle : F
  leg_angle = t.atan2 foot.0 foot.1

  abbrev shank_2 : F
  shank_2 = t.atan2 (foot.1 -ᶠ knee_2.1) (foot.0 -ᶠ knee_2.0)

  abbrev pub force_matrix : Matrix2 F
  force_matrix =
      let at_1 = leg_angle +ᶠ shank_2 in
      let at_2 = leg_angle -ᶠ shank_1 in
      let turn_1 = t.sin (a1 -ᶠ shank_1) in
      let turn_2 = t.sin (a2 -ᶠ shank_2) in
      let sum = t.sin (shank_1 +ᶠ shank_2) in
      record {
        m00 = f.neg l_b *ᶠ t.cos at_1 *ᶠ turn_1 /ᶠ sum;
        m01 = l_b /ᶠ leg_length *ᶠ t.sin at_1 *ᶠ turn_1 /ᶠ sum;
        m10 = f.neg l_b *ᶠ t.cos at_2 *ᶠ turn_2 /ᶠ sum;
        m11 = l_b /ᶠ leg_length *ᶠ t.sin at_2 *ᶠ turn_2 /ᶠ sum;
      }

-- What Eigen documents of the product of a matrix and a vector.
abbrev pub IsProduct : {F : Type 0} ⦃f : Float F⦄ → (Matrix2 F → Vector2 F → Vector2 F) → Type 0
IsProduct {F} product =
    (m : Matrix2 F) (v : Vector2 F)
    → product m v
      ≡ record { v0 = m.m00 *ᶠ v.v0 +ᶠ m.m01 *ᶠ v.v1; v1 = m.m10 *ᶠ v.v0 +ᶠ m.m11 *ᶠ v.v1 }

module _ {F W : Type 0} ⦃f : Float F⦄ ⦃t : Trig F⦄ where
  -- The matrix for a leg on these devices.
  abbrev pub at_devices :
      FiveLink F W → MotorBinder F W → MotorBinder F W → (Pointer → F) → Matrix2 F
  at_devices leg binder1 binder2 memory =
      force_matrix leg.l_a leg.l_b leg.l_c (memory binder1.angle) (memory binder2.angle)

module _ {F W : Type 0} ⦃f : Float F⦄ ⦃t : Trig F⦄
    (product : Matrix2 F → Vector2 F → Vector2 F) where
  -- For a product as Eigen documents it: a leg that is bound to two devices and then updated has the length
  -- and the angle of the closed forms at the two angles that the devices report; what it keeps as the
  -- speeds of these is the product of the force matrix with the two angles. A force on the leg is sent
  -- to the devices, first to the first one, as the torques that the matrix gives.
  pub bound-force :
      (leg : FiveLink F W) (binder1 binder2 : MotorBinder F W) (memory : Pointer → F)
      (f_n tau_j : F) (w : W)
      → IsProduct product
      → let updated = update product memory (bind leg binder1 binder2).0 in
        let m = at_devices leg binder1 binder2 memory in
        let a1 = memory binder1.angle in
        let a2 = memory binder2.angle in
        (updated.l ≡ leg_length leg.l_a leg.l_b leg.l_c a1 a2)
        × (updated.theta_l ≡ leg_angle leg.l_a leg.l_b leg.l_c a1 a2)
        × (updated.dot_l ≡ m.m00 *ᶠ a1 +ᶠ m.m01 *ᶠ a2)
        × (updated.dot_theta_l ≡ m.m10 *ᶠ a1 +ᶠ m.m11 *ᶠ a2)
        × (set_force product updated f_n tau_j w
            ≡ binder2.set_torque
                (m.m10 *ᶠ f_n +ᶠ m.m11 *ᶠ tau_j)
                (binder1.set_torque (m.m00 *ᶠ f_n +ᶠ m.m01 *ᶠ tau_j) w))
  unfolding update bind get_angle forward_solve jacobian_calc set_force send Motor.bind
  bound-force leg binder1 binder2 memory f_n tau_j w product_law =
      let m = at_devices leg binder1 binder2 memory in
      let angles : Vector2 F = record { v0 = memory binder1.angle; v1 = memory binder2.angle } in
      (
        refl,
        refl,
        ap (λ (v : Vector2 F). v.v0) (product_law m angles),
        ap (λ (v : Vector2 F). v.v1) (product_law m angles),
        rw (product_law m (record { v0 = f_n; v1 = tau_j })) refl,
      )
