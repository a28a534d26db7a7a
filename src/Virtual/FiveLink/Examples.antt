-- ===== src/Virtual/FiveLink/Examples.antt =====
-- A leg on two devices that log the torques that they get.
use robo_band.Base.{ℕ, ◌≡◌, ◌==◌, refl, List, [], ◌∷◌, if◌then◌else◌, some}
use robo_band.Base.Int.{pos}
use robo_band.Base.Float.{◌+ᶠ◌, ◌*ᶠ◌, zero_float}
use robo_band.Base.Float.Milli.{Milli, milli, milli_float}
use robo_band.Base.Float.Crude.{crude_trig}
use robo_band.Virtual.Pointer.{Pointer, owned, member}
use robo_band.Virtual.Motor.{MotorBinder, new_motor}
use robo_band.Virtual.FiveLink.{Matrix2, Vector2, FiveLink, new_five_link, bind, update, set_force}
use robo_band.Virtual.FiveLink.Kinematics.{
  IsProduct, at_devices, leg_length, leg_angle, bound-force,
}

abbrev product : Matrix2 Milli → Vector2 Milli → Vector2 Milli
product m v = record { v0 = m.m00 *ᶠ v.v0 +ᶠ m.m01 *ᶠ v.v1; v1 = m.m10 *ᶠ v.v0 +ᶠ m.m11 *ᶠ v.v1 }

product-IsProduct : IsProduct product
product-IsProduct m v = refl

abbrev Log : Type 0
Log = List (ℕ × Milli)

-- The device i has its angle at the address i.
abbrev binder : ℕ → MotorBinder Milli Log
binder i = record {
  set_torque = λ torque log. (i, torque) ∷ log;
  angle = member i;
  speed = member 9;
  actual = some i;
}

abbrev memory : Pointer → Milli
memory (owned i) = milli (pos 0)
memory (member i) = milli (pos (if i == 1 then 300 else 400))

abbrev leg : FiveLink Milli Log
leg =
    let zero = milli (pos 0) in
    new_five_link (milli (pos 75)) (milli (pos 140)) (milli (pos 240))
      (record { m00 = zero; m01 = zero; m10 = zero; m11 = zero }) (new_motor 10 11)
      (new_motor 12 13)

abbrev bound : FiveLink Milli Log
bound = (bind leg (binder 1) (binder 2)).0

bound-force_example :
    let updated = update product memory (bind leg (binder 1) (binder 2)).0 in
    let m = at_devices leg (binder 1) (binder 2) memory in
    let a1 = memory (member 1) in
    let a2 = memory (member 2) in
    (updated.l ≡ leg_length leg.l_a leg.l_b leg.l_c a1 a2)
    × (updated.theta_l ≡ leg_angle leg.l_a leg.l_b leg.l_c a1 a2)
    × (updated.dot_l ≡ m.m00 *ᶠ a1 +ᶠ m.m01 *ᶠ a2)
    × (updated.dot_theta_l ≡ m.m10 *ᶠ a1 +ᶠ m.m11 *ᶠ a2)
    × (set_force product updated (milli (pos 9000)) zero_float []
        ≡ (2, m.m10 *ᶠ milli (pos 9000) +ᶠ m.m11 *ᶠ zero_float)
          ∷ (1, m.m00 *ᶠ milli (pos 9000) +ᶠ m.m01 *ᶠ zero_float)
          ∷ [])
bound-force_example =
    bound-force product leg (binder 1) (binder 2) memory (milli (pos 9000)) zero_float []
      product-IsProduct
