-- ===== src/Dev/UnitreeMotor/Torque/Examples.antt =====
-- A torque of 200 Nm, which is limited, in thousandths.
use robo_band.Base.{◌*◌, ◌≡◌, ◌≢◌, refl, true, arith, length, take, drop, leb→le, le→leb}
use robo_band.Base.Int.{ℤ, pos, negsuc, ◌≤ℤ◌, ◌*ℤ◌, ◌/ℤ◌, neg_ℤ, pos_part, neg_part}
use robo_band.Base.Float.{◌*ᶠ◌, zero_float}
use robo_band.Base.Float.Milli.{Milli, nan, milli, milli_float, Milli-IsOrdered}
use robo_band.Dev.UnitreeMotor.{UnitreeMotor, SendData, normal, set_torque, new_unitree_motor}
use robo_band.Dev.UnitreeMotor.Words.{low_bytes, i16, word}
use robo_band.Util.Math.{abs_limit}
use robo_band.Dev.UnitreeMotor.Torque.{IsCast, carried, set_torque-carried}

unfoldable scale : ℤ → ℤ
scale a = (a *ℤ pos 256000) /ℤ pos 1000

-- 256000 thousandths are 256.
scale_parts :
    (a : ℤ) → (pos_part (scale a) ≡ 256 * pos_part a) × (neg_part (scale a) ≡ 256 * neg_part a)
unfolding scale ◌*ℤ◌ ◌/ℤ◌
scale_parts (pos n) = (ground arith, ground arith)
scale_parts (negsuc n) = (ground arith, ground arith)

-- Thousandths times 256 are monotone, and are cut to integers monotonely.
milli_mul_mono :
    (x y : Milli)
    → milli_float.le x y ≡ true
    → milli_float.le (x *ᶠ milli_float.lit 256 1) (y *ᶠ milli_float.lit 256 1) ≡ true
unfolding scale
milli_mul_mono nan y h = cc
milli_mul_mono (milli a) nan h = cc
milli_mul_mono (milli a) (milli b) h =
    let (pos_a, neg_a) = scale_parts a in
    let (pos_b, neg_b) = scale_parts b in
    let before : a ≤ℤ b = leb→le _ _ h in
    let after : scale a ≤ℤ scale b = omega arith in le→leb _ _ after

cut_mono : (a b : ℤ) → a ≤ℤ b → (a /ℤ pos 1000) ≤ℤ (b /ℤ pos 1000)
unfolding ◌/ℤ◌
cut_mono (pos m) (pos n) h = ground arith
cut_mono (pos m) (negsuc n) h = absurd (omega arith)
cut_mono (negsuc m) (pos n) h = ground arith
cut_mono (negsuc m) (negsuc n) h = ground arith

milli_to_int_mono :
    (x y : Milli) → milli_float.le x y ≡ true → milli_float.to_int x ≤ℤ milli_float.to_int y
milli_to_int_mono nan y h = absurd (cc)
milli_to_int_mono (milli a) nan h = absurd (cc)
milli_to_int_mono (milli a) (milli b) h = let before : a ≤ℤ b = leb→le _ _ h in cut_mono a b before

Milli-IsCast : IsCast Milli
unfolding ◌*ℤ◌ ◌/ℤ◌ neg_ℤ
Milli-IsCast = record {
  mul_mono = milli_mul_mono;
  to_int_mono = milli_to_int_mono;
  limit_number = refl;
  neg_number = refl;
  limit_order = refl;
  highest = omega arith;
  lowest = omega arith;
}

abbrev raw : SendData
raw = record {
  head0 = 0;
  head1 = 0;
  info = record { id = 0; mode = 0; reserved = 0 };
  msg = record {
    torque_set = pos 0;
    speed_set = pos 0;
    angle_set = pos 0;
    k_pos_set = pos 0;
    k_spd_set = pos 0;
  };
  crc = 0;
}

abbrev motor : UnitreeMotor Milli
motor = new_unitree_motor raw 3 (negsuc 0)

set_torque-carried_example :
    let (m', sent) = set_torque length motor (milli (pos 900000)) in
    let z = m'.send_data.msg.torque_set in
    (length sent ≡ 17)
    × (carried sent ≡ z)
    × (negsuc 32741 ≤ℤ z)
    × (z ≤ℤ pos 32742)
    × (drop 15 sent ≡ low_bytes 2 (length (take 15 sent)))
    × (motor.err ≢ normal
        → set_torque length motor (milli (pos 900000)) ≡ set_torque length motor zero_float)
unfolding new_unitree_motor ◌*ℤ◌ ◌/ℤ◌
set_torque-carried_example =
    set_torque-carried length Milli-IsOrdered Milli-IsCast motor (milli (pos 900000)) refl

-- -900 Nm at the motor are -142.18 at the rotor, and limited to -127.9.
carried_limit : carried (set_torque length motor (milli (pos 900000))).1 ≡ negsuc 32741
unfolding set_torque low_bytes i16 word abs_limit new_unitree_motor ◌/ℤ◌ ◌*ℤ◌ neg_ℤ
carried_limit = refl
