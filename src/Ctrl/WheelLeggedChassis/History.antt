-- ===== src/Ctrl/WheelLeggedChassis/History.antt =====
-- The control loop of the chassis does not depend on what it did before.
use robo_band.Base.{◌≡◌, refl, ap, ◌∙◌, List, [], ◌∷◌}
use robo_band.Base.Float.{Float}
use robo_band.Base.Float.Trig.{Trig}
use robo_band.Util.Pid.{pid_siso}
use robo_band.Virtual.Pointer.{Pointer}
use robo_band.Virtual.Motor.{Motor}
use robo_band.Virtual.FiveLink.{FiveLink, update, forward_solve, jacobian_calc}
use robo_band.Virtual.FiveLink.Kinematics.{SameBuild, update-angles_only}
use robo_band.Ctrl.WheelLeggedChassis.{WheelLeggedChassis, Eigen, leg_forces, ctrl_loop, ctrl_loops}

module _ {F W : Type 0} where
  -- Two chassis of the same build, with controllers in the same state.
  record Same (a b : WheelLeggedChassis F W) : Type 0 where
    leg_0 : SameBuild a.leg_0 b.leg_0
    leg_1 : SameBuild a.leg_1 b.leg_1
    wheel_0 : a.wheel_0 ≡ b.wheel_0
    wheel_1 : a.wheel_1 ≡ b.wheel_1
    f_gravity : a.f_gravity ≡ b.f_gravity
    pid_l : a.pid_l ≡ b.pid_l

SameBuild-refl : {F W : Type 0} (leg : FiveLink F W) → SameBuild leg leg
SameBuild-refl leg = record { l_a = refl; l_b = refl; l_c = refl; motor1 = refl; motor2 = refl }

SameBuild-trans :
    {F W : Type 0} {a b c : FiveLink F W} → SameBuild a b → SameBuild b c → SameBuild a c
SameBuild-trans ab bc = record {
  l_a = ab.l_a ∙ bc.l_a;
  l_b = ab.l_b ∙ bc.l_b;
  l_c = ab.l_c ∙ bc.l_c;
  motor1 = ab.motor1 ∙ bc.motor1;
  motor2 = ab.motor2 ∙ bc.motor2;
}

Same-refl : {F W : Type 0} (c : WheelLeggedChassis F W) → Same c c
Same-refl c = record {
  leg_0 = SameBuild-refl c.leg_0;
  leg_1 = SameBuild-refl c.leg_1;
  wheel_0 = refl;
  wheel_1 = refl;
  f_gravity = refl;
  pid_l = refl;
}

Same-trans : {F W : Type 0} {a b c : WheelLeggedChassis F W} → Same a b → Same b c → Same a c
Same-trans ab bc = record {
  leg_0 = SameBuild-trans ab.leg_0 bc.leg_0;
  leg_1 = SameBuild-trans ab.leg_1 bc.leg_1;
  wheel_0 = ab.wheel_0 ∙ bc.wheel_0;
  wheel_1 = ab.wheel_1 ∙ bc.wheel_1;
  f_gravity = ab.f_gravity ∙ bc.f_gravity;
  pid_l = ab.pid_l ∙ bc.pid_l;
}

module _ {F W : Type 0} ⦃f : Float F⦄ ⦃t : Trig F⦄ (eigen : Eigen F) where
  update-SameBuild :
      (memory : Pointer → F) (leg : FiveLink F W) → SameBuild (update eigen.times2 memory leg) leg
  unfolding update forward_solve jacobian_calc
  update-SameBuild memory leg = record {
    l_a = refl;
    l_b = refl;
    l_c = refl;
    motor1 = refl;
    motor2 = refl;
  }

  ctrl_loop-Same :
      (memory : Pointer → F) (c : WheelLeggedChassis F W) (w : W)
      → Same (ctrl_loop eigen memory c w).0 c
  unfolding ctrl_loop
  ctrl_loop-Same memory c w = record {
    leg_0 = update-SameBuild memory c.leg_0;
    leg_1 = update-SameBuild memory c.leg_1;
    wheel_0 = refl;
    wheel_1 = refl;
    f_gravity = refl;
    pid_l = refl;
  }

  update-same :
      (memory : Pointer → F) (a b : FiveLink F W)
      → SameBuild a b
      → update eigen.times2 memory a ≡ update eigen.times2 memory b
  update-same memory a b same =
      update-angles_only eigen.times2 a b memory memory same
        (ap (λ (m : Motor F W). memory m.angle) same.motor1)
        (ap (λ (m : Motor F W). memory m.angle) same.motor2)

  -- The updated legs of two such chassis are the same, and so is what is sent.
  ctrl_loop-devices :
      (memory : Pointer → F) (a b : WheelLeggedChassis F W) (w : W)
      → Same a b
      → (ctrl_loop eigen memory a w).1 ≡ (ctrl_loop eigen memory b w).1
  unfolding ctrl_loop leg_forces
  ctrl_loop-devices memory a b w same =
      rw
        (
          update-same memory a.leg_0 b.leg_0 same.leg_0,
          update-same memory a.leg_1 b.leg_1 same.leg_1,
          same.wheel_0,
          same.wheel_1,
          same.f_gravity,
          same.pid_l,
        )
        refl

  -- The devices, if a chassis that made no call before handles each memory.
  abbrev pub each_anew : List (Pointer → F) → WheelLeggedChassis F W → W → W
  each_anew [] c w = w
  each_anew (memory ∷ memories) c w = each_anew memories c (ctrl_loop eigen memory c w).1

  ctrl_loops-Same :
      (memories : List (Pointer → F)) (a c : WheelLeggedChassis F W) (w : W)
      → Same a c
      → (ctrl_loops eigen memories a w).1 ≡ each_anew memories c w
  unfolding ctrl_loops
  ctrl_loops-Same [] a c w same = refl
  ctrl_loops-Same (memory ∷ memories) a c w same =
      let next = Same-trans (ctrl_loop-Same memory a w) same in
      ctrl_loops-Same memories (ctrl_loop eigen memory a w).0 c (ctrl_loop eigen memory a w).1 next
      ∙ ap (each_anew memories c) (ctrl_loop-devices memory a c w same)

  -- However often the control loop ran, every call commands the devices exactly as the first call
  -- of a new chassis would that met the same memory: nothing that an earlier call computed has an
  -- effect.
  pub ctrl_loops-anew :
      (memories : List (Pointer → F)) (c : WheelLeggedChassis F W) (w : W)
      → (ctrl_loops eigen memories c w).1 ≡ each_anew memories c w
  ctrl_loops-anew memories c w = ctrl_loops-Same memories c c w (Same-refl c)
