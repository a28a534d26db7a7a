-- ===== src/Dev/WebotsImu/Reading.antt =====
-- What a virtual IMU reads that is bound to a simulated one.
use robo_band.Base.{ℕ, ◌==◌, ◌≡◌, ◌≢◌, if◌then◌else◌, arith}
use robo_band.Base.Int.{ℤ}
use robo_band.Io.Webots.{is_running, inertial_get_roll_pitch_yaw, gyro_get_values}
use robo_band.Virtual.Pointer.{Pointer, owned, member}
use robo_band.Virtual.Imu.{Imu, ImuId, index, bind, get_angle, get_speed}
use robo_band.Dev.WebotsImu.{WebotsImu, Sample, binder, update}

module _ {F : Type 0} where
  -- The memory with the two arrays of a device at these addresses.
  abbrev pub memory_of : ℕ → ℕ → WebotsImu F → (Pointer → ℕ → F) → Pointer → ℕ → F
  memory_of angle speed imu others (owned n) = others (owned n)
  memory_of angle speed imu others (member n) =
      if n == angle then imu.angle else (if n == speed then imu.speed else others (member n))

  at_angle :
      (a s : ℕ) (imu : WebotsImu F) (others : Pointer → ℕ → F)
      → memory_of a s imu others (member a) ≡ imu.angle
  at_angle a s imu others = ground arith

  at_speed :
      (a s : ℕ) (imu : WebotsImu F) (others : Pointer → ℕ → F)
      → a ≢ s
      → memory_of a s imu others (member s) ≡ imu.speed
  at_speed a s imu others apart = ground arith

  inertial-index :
      (time : ℤ) (given old : ℕ → F) (id : ImuId)
      → inertial_get_roll_pitch_yaw time given old (index id)
        ≡ (if is_running time then given (index id) else old (index id))
  unfolding inertial_get_roll_pitch_yaw
  inertial-index time given old id = ground arith

  gyro-index :
      (time : ℤ) (given old : ℕ → F) (id : ImuId)
      → gyro_get_values time given old (index id)
        ≡ (if is_running time then given (index id) else old (index id))
  unfolding gyro_get_values
  gyro-index time given old id = ground arith

  -- A virtual IMU that is bound to a simulated one reads, for each of the three axes, the angle and the
  -- speed that its sensors gave at the last update while the simulation ran: an update while it runs
  -- brings both, and one after its end changes neither. The two arrays do not share an address.
  pub update-read :
      (imu : Imu) (device : WebotsImu F) (sample : Sample F) (others : Pointer → ℕ → F) (time : ℤ)
      (id : ImuId) (a s : ℕ)
      → a ≢ s
      → let virtual = (bind imu (binder a s)).0 in
        let before = memory_of a s device others in
        let after = memory_of a s (update time sample device) others in
        (get_angle virtual after id ≡ (
          if is_running time
          then sample.roll_pitch_yaw (index id)
          else get_angle virtual before id))
        × (get_speed virtual after id
            ≡ (if is_running time then sample.values (index id) else get_speed virtual before id))
  unfolding bind binder update get_angle get_speed
  update-read imu device sample others time id a s apart =
      let updated = update time sample device in
      (
        rw (at_angle a s updated others, at_angle a s device others)
            (inertial-index time sample.roll_pitch_yaw device.angle id),
        rw (at_speed a s updated others apart, at_speed a s device others apart)
            (gyro-index time sample.values device.speed id),
      )
