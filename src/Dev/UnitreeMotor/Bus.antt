-- ===== src/Dev/UnitreeMotor/Bus.antt =====
-- Several motors on one serial port: who takes a report.
use mathlib.Core.Path.{fun_ext}
use robo_band.Base.{
  ℕ, ◌<◌, ◌≡◌, ◌≢◌, ◌∙◌, refl, ap, true, false, none, some, List, [], ◌∷◌, ◌++◌, All, if◌then◌else◌,
  ◌==◌, ==_iff, Bool-cases, inl, inr,
}
use robo_band.Base.Int.{ℤ}
use robo_band.Base.Float.{Float}
use robo_band.Io.NoKey.{Unpacker, offer}
use robo_band.Io.NoKey.Offers.{offer-taken, offer-left}
use robo_band.Dev.UnitreeMotor.{UnitreeMotor, unpack}
use robo_band.Dev.UnitreeMotor.Frames.{
  Report, IsFeasible, body, frame, reported, unpack-frame, unpack-frame_other,
}

module _ {ℓ} {F : Type ℓ} where
  -- The motors by their places, with one of them changed.
  abbrev pub update : (ℕ → UnitreeMotor F) → ℕ → UnitreeMotor F → (ℕ → UnitreeMotor F)
  update motors k m j = if j == k then m else motors j

  update_same : (motors : ℕ → UnitreeMotor F) (k : ℕ) → update motors k (motors k) ≡ motors
  update_same motors k =
      fun_ext λ j. elim (Bool-cases (j == k)) [ inl e ↦ rw (e, (==_iff j k).0 e) | inr e ↦ rw e ]

module _ {ℓ} {F : Type ℓ} ⦃f : Float F⦄ (crc : List ℕ → ℕ) where
  -- What the constructor of `Dev` registers for a motor. (The data are never too short: the buffer of
  -- the port has the size of a frame.)
  unfoldable pub motor_unpacker : ℕ → Unpacker (ℕ → UnitreeMotor F)
  motor_unpacker k bytes len motors = elim (unpack crc (motors k) bytes) [
    | none ↦ (motors, false)
    | some (m, taken) ↦ (update motors k m, taken)
  ]

  abbrev pub unpackers : List ℕ → List (Unpacker (ℕ → UnitreeMotor F))
  unpackers [] = []
  unpackers (k ∷ ks) = motor_unpacker k ∷ unpackers ks

  module _ (r : Report) (v : IsFeasible r) (sum : crc (body r) < 65536) (len : ℤ) where
    pub motor_unpacker-frame :
        (k : ℕ) (motors : ℕ → UnitreeMotor F)
        → r.id ≡ (motors k).id
        → motor_unpacker k (frame crc r) len motors
          ≡ (update motors k (reported crc (motors k) r), true)
    unfolding motor_unpacker
    motor_unpacker-frame k motors same =
        rw (unpack-frame crc (motors k) r v sum same, motor_unpacker)

    pub motor_unpacker-other :
        (k : ℕ) (motors : ℕ → UnitreeMotor F)
        → r.id ≢ (motors k).id
        → motor_unpacker k (frame crc r) len motors ≡ (motors, false)
    unfolding motor_unpacker
    motor_unpacker-other k motors differ =
        rw (unpack-frame_other crc (motors k) r v sum differ, motor_unpacker)
          (ap (λ ms. (ms, false)) (update_same motors k))

    -- The frame of a report whose members fit, with its 16 bit checksum, is taken by the first motor
    -- with its number, which alone changes, to what is reported; motors that stand after it are not
    -- asked.
    pub offer-frame :
        (before after : List ℕ) (k : ℕ) (motors : ℕ → UnitreeMotor F)
        → All (λ j. r.id ≢ (motors j).id) before
        → r.id ≡ (motors k).id
        → offer (unpackers (before ++ (k ∷ after))) (frame crc r) len motors
          ≡ (update motors k (reported crc (motors k) r), true)
    offer-frame [] after k motors others same =
        offer-taken (motor_unpacker k) (unpackers after) (frame crc r) len motors
          (motor_unpacker-frame k motors same)
    offer-frame (j ∷ before) after k motors (differ, others) same =
        offer-left (motor_unpacker j) (unpackers (before ++ (k ∷ after))) (frame crc r) len motors
          (motor_unpacker-other j motors differ)
        ∙ (offer-frame before after k motors others same)

    -- A report with a number that no motor has changes nothing, and is not taken.
    pub offer-frame_unknown :
        (ks : List ℕ) (motors : ℕ → UnitreeMotor F)
        → All (λ j. r.id ≢ (motors j).id) ks
        → offer (unpackers ks) (frame crc r) len motors ≡ (motors, false)
    unfolding offer
    offer-frame_unknown [] motors others = refl
    offer-frame_unknown (j ∷ ks) motors (differ, others) =
        offer-left (motor_unpacker j) (unpackers (ks)) (frame crc r) len motors
          (motor_unpacker-other j motors differ)
        ∙ (offer-frame_unknown ks motors others)
