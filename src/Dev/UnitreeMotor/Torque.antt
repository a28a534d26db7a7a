-- ===== src/Dev/UnitreeMotor/Torque.antt =====
-- The torque in a command: what the motor reads is what was computed.
pub mod Examples
use robo_band.Base.{
  ℕ, ◌+◌, ◌≡◌, ◌≢◌, ◌∙◌, refl, ap, sym, true, false, List, [], ◌∷◌, ◌++◌, take, drop, length,
  if◌then◌else◌, ◌==◌, Bool-cases, inl, inr, arith,
}
use robo_band.Base.Int.{ℤ, pos, negsuc, ◌≤ℤ◌}
use robo_band.Base.Float.{Float, IsOrdered, IsNumber, zero_float, ◌*ᶠ◌, ◌/ᶠ◌}
use robo_band.Util.Math.{abs_limit}
use robo_band.Util.Math.Laws.{abs_limit-Within}
use robo_band.Util.Pid.Bounds.{Within}
use robo_band.Dev.UnitreeMotor.{UnitreeMotor, normal, ratio, set_torque, command_bytes}
use robo_band.Dev.UnitreeMotor.Commands.{set_torque_fault}
use robo_band.Dev.UnitreeMotor.Words.{word, low_bytes, i16, i16-word}

-- What is relied on of the product by 256 and the cast: both are monotone, 127.9 and its negation are
-- numbers in this order, and 127.9 * 256 is cut to 32742.
pub record IsCast {ℓ} (F : Type ℓ) ⦃f : Float F⦄ : Type ℓ where
  pub mul_mono : (x y : F) → f.le x y ≡ true → f.le (x *ᶠ f.lit 256 1) (y *ᶠ f.lit 256 1) ≡ true
  pub to_int_mono : (x y : F) → f.le x y ≡ true → f.to_int x ≤ℤ f.to_int y
  pub limit_number : IsNumber (f.lit 1279 10)
  pub neg_number : IsNumber (f.neg (f.lit 1279 10))
  pub limit_order : f.lt (f.lit 1279 10) (f.neg (f.lit 1279 10)) ≡ false
  pub highest : f.to_int (f.lit 1279 10 *ᶠ f.lit 256 1) ≤ℤ pos 32742
  pub lowest : negsuc 32741 ≤ℤ f.to_int (f.neg (f.lit 1279 10) *ᶠ f.lit 256 1)

-- What a command says of the torque, if it is read by the protocol.
abbrev pub carried : List ℕ → ℤ
carried (h0 ∷ h1 ∷ info ∷ t0 ∷ t1 ∷ rest) = i16 t0 t1
carried _ = pos 0

module _ {ℓ} {F : Type ℓ} ⦃f : Float F⦄ (crc : List ℕ → ℕ) where
  -- The torque at the rotor that is asked for; none after an error.
  abbrev pub asked : UnitreeMotor F → F → F
  asked m torque = (if m.err == normal then torque else zero_float) *ᶠ f.of_int m.dir /ᶠ ratio

  abs_limit-IsNumber :
      (x lim : F) → IsNumber x → IsNumber lim → IsNumber (f.neg lim) → IsNumber (abs_limit x lim)
  unfolding abs_limit
  abs_limit-IsNumber x lim number high low = elim (Bool-cases (f.lt x (f.neg lim))) [
    | inl under ↦
        rw under (elim (Bool-cases (f.lt lim (f.neg lim))) [ inl e ↦ rw e high | inr e ↦ rw e low ])
    | inr above ↦
        rw above (elim (Bool-cases (f.lt lim x)) [ inl e ↦ rw e high | inr e ↦ rw e number ])
  ]

  -- The limited torque, as it is cast.
  cast-range :
      (laws : IsOrdered F) (casts : IsCast F) (x : F)
      → IsNumber x
      → let z = f.to_int (abs_limit x (f.lit 1279 10) *ᶠ f.lit 256 1) in
        (negsuc 32741 ≤ℤ z) × (z ≤ℤ pos 32742)
  cast-range laws casts x number =
      let lim = f.lit 1279 10 in
      let y = abs_limit x lim in
      let (low, high) = abs_limit-Within laws x lim casts.limit_order in
      let y_number = abs_limit-IsNumber x lim number casts.limit_number casts.neg_number in
      let from_below =
        casts.to_int_mono (f.neg lim *ᶠ f.lit 256 1) (y *ᶠ f.lit 256 1) (
          casts.mul_mono (f.neg lim) y (laws.not-lt y (f.neg lim) y_number casts.neg_number low)) in
      let from_above =
        casts.to_int_mono (y *ᶠ f.lit 256 1) (lim *ᶠ f.lit 256 1)
          (casts.mul_mono y lim (laws.not-lt lim y casts.limit_number y_number high)) in
      (omega (arith, from_below, casts.lowest), omega (arith, from_above, casts.highest))

  -- Given the order laws of floats and of the cast to `int16_t`: if the torque that is asked for is no
  -- NaN at the rotor, the command has 17 bytes, its torque is read as what was computed, which is
  -- within 32742 steps of a 256th, so that the cast does not overflow; it ends with the
  -- checksum of the first 15 bytes; and after an error it is the command of a request of no torque.
  pub set_torque-carried :
      (laws : IsOrdered F) (casts : IsCast F) (m : UnitreeMotor F) (torque : F)
      → IsNumber (asked m torque)
      → let (m', sent) = set_torque crc m torque in
        let z = m'.send_data.msg.torque_set in
        (length sent ≡ 17)
        × (carried sent ≡ z)
        × (negsuc 32741 ≤ℤ z)
        × (z ≤ℤ pos 32742)
        × (drop 15 sent ≡ low_bytes 2 (crc (take 15 sent)))
        × (m.err ≢ normal → set_torque crc m torque ≡ set_torque crc m zero_float)
  unfolding set_torque command_bytes low_bytes
  set_torque-carried laws casts m torque number =
      let (low, high) = cast-range laws casts (asked m torque) number in
      (
        refl,
        i16-word _ (omega (arith, low)) (omega (arith, high)),
        low,
        high,
        refl,
        set_torque_fault crc m torque,
      )
