-- ===== src/Dev/UnitreeMotor/Frames.antt =====
-- The frames that a motor sends, by the protocol, and how `unpack` reads them.
use robo_band.Base.{
  ℕ, ◌+◌, ◌*◌, ◌%◌, ◌<◌, ◌≡◌, ◌≢◌, refl, true, false, some, List, ◌∷◌, ◌++◌, arith, take,
}
use robo_band.Base.Int.{ℤ, pos, negsuc, ◌≤ℤ◌}
use robo_band.Base.Float.{Float}
use robo_band.Dev.UnitreeMotor.{
  UnitreeMotor, Feedback, resv_head0, resv_head1, read_feedback, unpack, angle_of, speed_of,
}
use robo_band.Dev.UnitreeMotor.Words.{word, low_bytes, i8-word, i16-word, i32-word, u16-bytes}

-- What a motor reports: its number, mode, torque, speed, angle, temperature, error and foot force.
pub record Report : Type 0 where
  pub id : ℕ
  pub mode : ℕ
  pub torque : ℤ
  pub speed : ℤ
  pub angle : ℤ
  pub temp : ℤ
  pub err : ℕ
  pub force : ℕ

-- Each member fits its bits.
pub record IsFeasible (r : Report) : Type 0 where
  pub id_fits : r.id < 16
  pub mode_fits : r.mode < 8
  pub torque_low : negsuc 32767 ≤ℤ r.torque
  pub torque_high : r.torque ≤ℤ pos 32767
  pub speed_low : negsuc 32767 ≤ℤ r.speed
  pub speed_high : r.speed ≤ℤ pos 32767
  pub angle_low : negsuc 2147483647 ≤ℤ r.angle
  pub angle_high : r.angle ≤ℤ pos 2147483647
  pub temp_low : negsuc 127 ≤ℤ r.temp
  pub temp_high : r.temp ≤ℤ pos 127
  pub err_fits : r.err < 8
  pub force_fits : r.force < 4096

-- The fourteen bytes before the checksum.
unfoldable pub body : Report → List ℕ
unfolding low_bytes
body r =
    resv_head0
    ∷ resv_head1
    ∷ (r.id + 16 * r.mode)
    ∷ (low_bytes 2 (word 16 r.torque)
        ++ (low_bytes 2 (word 16 r.speed)
            ++ (low_bytes 4 (word 32 r.angle)
                ++ (low_bytes 1 (word 8 r.temp) ++ low_bytes 2 (r.err + 8 * r.force)))))

unfoldable pub frame : (List ℕ → ℕ) → Report → List ℕ
unfolding body
frame crc r = body r ++ low_bytes 2 (crc (body r))

abbrev pub report_feedback : (List ℕ → ℕ) → Report → Feedback
report_feedback crc r = record {
  head0 = resv_head0;
  head1 = resv_head1;
  id = r.id;
  torque_fbk = r.torque;
  speed_fbk = r.speed;
  angle_fbk = r.angle;
  temp_fbk = r.temp;
  err = r.err;
  crc = crc (body r);
}

read_feedback-frame :
    (crc : List ℕ → ℕ) (r : Report)
    → IsFeasible r
    → crc (body r) < 65536
    → read_feedback (frame crc r) ≡ some (report_feedback crc r)
unfolding read_feedback frame
read_feedback-frame crc r v h =
    let id_bits : (r.id + 16 * r.mode) % 16 ≡ r.id = omega (arith, v.id_fits) in
    let err_bits : (r.err + 8 * r.force) % 256 % 8 ≡ r.err = omega (arith, v.err_fits) in
    rw (
      id_bits,
      err_bits,
      i16-word r.torque v.torque_low v.torque_high,
      i16-word r.speed v.speed_low v.speed_high,
      i32-word r.angle v.angle_low v.angle_high,
      i8-word r.temp v.temp_low v.temp_high,
      u16-bytes (crc (body r)) h,
    )

take-frame : (crc : List ℕ → ℕ) (r : Report) → take 14 (frame crc r) ≡ body r
unfolding frame
take-frame crc r = refl

module _ {ℓ} {F : Type ℓ} ⦃f : Float F⦄ (crc : List ℕ → ℕ) where
  -- The object after a report was taken.
  abbrev pub reported : UnitreeMotor F → Report → UnitreeMotor F
  reported m r = record m {
    angle = angle_of m r.angle;
    speed = speed_of m r.speed;
    temp = r.temp;
    err = r.err;
  }

  -- The frame of a report whose members fit, with its 16 bit checksum, is taken by the motor with its
  -- number, which then has the reported angle, speed, temperature and error.
  pub unpack-frame :
      (m : UnitreeMotor F) (r : Report)
      → IsFeasible r
      → crc (body r) < 65536
      → r.id ≡ m.id
      → unpack crc m (frame crc r) ≡ some (reported m r, true)
  unfolding unpack
  unpack-frame m r v h same =
      rw (read_feedback-frame crc r v h, take-frame crc r, unpack) (ground arith)

  -- The frame of a report whose members fit, with its 16 bit checksum, is not taken by a motor with
  -- another number, which stays as it is.
  pub unpack-frame_other :
      (m : UnitreeMotor F) (r : Report)
      → IsFeasible r
      → crc (body r) < 65536
      → r.id ≢ m.id
      → unpack crc m (frame crc r) ≡ some (m, false)
  unfolding unpack
  unpack-frame_other m r v h differ =
      rw (read_feedback-frame crc r v h, take-frame crc r, unpack) (ground arith)
