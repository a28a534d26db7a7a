-- ===== src/App/Aokee/Cycle.antt =====
-- One cycle of Aokee, from the bytes that arrive on the serial port to the frames that are sent: the thread
-- of the port (src/io/serial.cc), the motors (src/dev/unitree_motor.cc), the bindings (app/Aokee/Aokee.cc)
-- and the control loop (src/ctrl/wheel_legged_chassis/wheel_legged_chassis.hpp).
pub mod Examples
use robo_band.Base.{
  ◌*◌, ◌%◌, ◌++◌, ◌==◌, if◌then◌else◌, ℕ, ◌+◌, ◌<◌, ◌≡◌, ◌∙◌, refl, ap, true, List, [], ◌∷◌, All,
  map, length,
}
use robo_band.Base.Int.{ℤ, pos}
use robo_band.Base.Float.{Float, ◌+ᶠ◌, ◌-ᶠ◌, ◌*ᶠ◌, ◌/ᶠ◌, zero_float}
use robo_band.Base.Float.Trig.{Trig}
use robo_band.Io.NoKey.{Served}
use robo_band.Io.Serial.{Event}
use robo_band.Io.Serial.Framing.{bytes}
use robo_band.Io.Serial.Thread.{serial_thread}
use robo_band.Io.Serial.Thread.Chunks.{Steady, count_timeouts}
use robo_band.Io.Serial.Thread.Frames.{flatten}
use robo_band.Dev.UnitreeMotor.{UnitreeMotor, set_torque, command_bytes, info_byte}
use robo_band.Dev.UnitreeMotor.Words.{word, low_bytes}
use robo_band.Util.Math.{abs_limit}
use robo_band.Util.Siso.{feed}
use robo_band.Util.Pid.{calc, pid_siso}
use robo_band.Dev.UnitreeMotor.Frames.{Report, frame}
use robo_band.Dev.UnitreeMotor.Bus.{unpackers}
use robo_band.Dev.UnitreeMotor.Stream.{last_of, told, IsSent}
use robo_band.Dev.UnitreeMotor.Binder.{Port, memory, binder}
use robo_band.Dev.UnitreeMotor.Port.{port, port-told}
use robo_band.Virtual.FiveLink.{FiveLink, Vector2}
use robo_band.Virtual.FiveLink.Kinematics.{IsProduct, leg_length, force_matrix}
use robo_band.Ctrl.WheelLeggedChassis.{
  WheelLeggedChassis, Matrix24, Vector4, Eigen, leg_forces, ctrl_loop,
}
use robo_band.App.Aokee.Binding.{bind_virtual_dev}
use robo_band.App.Aokee.Binding.Drive.{ctrl_loop-bound}

-- The places of the six motors.
abbrev pub six : List ℕ
six = 0 ∷ 1 ∷ 2 ∷ 3 ∷ 4 ∷ 5 ∷ []

-- The product of a matrix of two rows and a vector.
abbrev pub IsProduct24 : {F : Type 0} ⦃f : Float F⦄ → (Matrix24 F → Vector4 F → Vector2 F) → Type 0
IsProduct24 {F} product =
    (m : Matrix24 F) (v : Vector4 F)
    → product m v ≡ record {
      v0 = m.row0.v0 *ᶠ v.v0 +ᶠ m.row0.v1 *ᶠ v.v1 +ᶠ m.row0.v2 *ᶠ v.v2 +ᶠ m.row0.v3 *ᶠ v.v3;
      v1 = m.row1.v0 *ᶠ v.v0 +ᶠ m.row1.v1 *ᶠ v.v1 +ᶠ m.row1.v2 *ᶠ v.v2 +ᶠ m.row1.v3 *ᶠ v.v3;
    }

module _ {F : Type 0} ⦃f : Float F⦄ ⦃t : Trig F⦄ (crc : List ℕ → ℕ) (eigen : Eigen F) where
  -- The frame for a torque at the joint, byte by byte: no torque after an error, at the rotor cut to 127.9, as
  -- 16 bits in steps of a 256th, between the head and what stands in the other members, and the checksum.
  abbrev pub order : UnitreeMotor F → F → List ℕ
  order m torque =
      let wanted = if m.err == 0 then torque else zero_float in
      let rotor = wanted *ᶠ f.of_int m.dir /ᶠ f.lit 633 100 in
      let most = f.lit 1279 10 in
      let raised = if f.lt rotor (f.neg most) then f.neg most else rotor in
      let cut = if f.lt most raised then most else raised in
      let held = m.send_data in
      let body =
        held.head0
        ∷ held.head1
        ∷ (held.info.id % 16 + 16 * (held.info.mode % 8) + 128 * (held.info.reserved % 2))
        ∷ (low_bytes 2 (word 16 (f.to_int (cut *ᶠ f.lit 256 1)))
            ++ (low_bytes 2 (word 16 held.msg.speed_set)
                ++ (low_bytes 4 (word 32 held.msg.angle_set)
                    ++ (low_bytes 2 (word 16 held.msg.k_pos_set)
                        ++ low_bytes 2 (word 16 held.msg.k_spd_set))))) in
      body ++ low_bytes 2 (crc body)

  set_torque-order :
      (m : UnitreeMotor F) (torque : F) → (set_torque crc m torque).1 ≡ order m torque
  unfolding set_torque command_bytes info_byte abs_limit
  set_torque-order m torque = refl

  -- The force that holds the legs at a mean length of 0.25: the output of the controller.
  abbrev pub lift : WheelLeggedChassis F (Port F) → F → F → F
  lift c l_0 l_1 = (calc c.pid_l (f.lit 25 100 -ᶠ f.lit 5 10 *ᶠ (l_0 +ᶠ l_1))).1

  -- The forces along the legs: the lift and gravity on both, and no force that rolls or turns the robot.
  abbrev pub left_force : WheelLeggedChassis F (Port F) → F → F → F
  left_force c l_0 l_1 =
      let one = f.of_int (pos 1) in
      one *ᶠ zero_float +ᶠ one *ᶠ lift c l_0 l_1 +ᶠ one *ᶠ c.f_gravity +ᶠ f.neg one *ᶠ zero_float

  abbrev pub right_force : WheelLeggedChassis F (Port F) → F → F → F
  right_force c l_0 l_1 =
      let one = f.of_int (pos 1) in
      f.neg one *ᶠ zero_float +ᶠ one *ᶠ lift c l_0 l_1 +ᶠ one *ᶠ c.f_gravity +ᶠ one *ᶠ zero_float

  leg_forces-closed :
      (c : WheelLeggedChassis F (Port F)) (l_0 l_1 : F)
      → IsProduct24 eigen.times24
      → leg_forces eigen c l_0 l_1
        ≡ record { v0 = left_force c l_0 l_1; v1 = right_force c l_0 l_1 }
  unfolding leg_forces feed
  leg_forces-closed c l_0 l_1 product = product _ _

  -- The torques for a force along a leg with its motors at these angles.
  abbrev pub torque_1 : FiveLink F (Port F) → F → F → F → F
  torque_1 leg a1 a2 force =
      let m = force_matrix leg.l_a leg.l_b leg.l_c a1 a2 in m.m00 *ᶠ force +ᶠ m.m01 *ᶠ zero_float

  abbrev pub torque_2 : FiveLink F (Port F) → F → F → F → F
  torque_2 leg a1 a2 force =
      let m = force_matrix leg.l_a leg.l_b leg.l_c a1 a2 in m.m10 *ᶠ force +ᶠ m.m11 *ᶠ zero_float

  -- What a control cycle sends, the latest first, if the motors are as these six.
  abbrev pub orders :
      WheelLeggedChassis F (Port F) → (m0 m1 m2 m3 m4 m5 : UnitreeMotor F) → List (List ℕ)
  orders c m0 m1 m2 m3 m4 m5 =
      let left = c.leg_0 in
      let right = c.leg_1 in
      let l_0 = leg_length left.l_a left.l_b left.l_c m2.angle m3.angle in
      let l_1 = leg_length right.l_a right.l_b right.l_c m5.angle m4.angle in
      order m1 zero_float
      ∷ order m0 zero_float
      ∷ order m4 (torque_2 right m5.angle m4.angle (right_force c l_0 l_1))
      ∷ order m5 (torque_1 right m5.angle m4.angle (right_force c l_0 l_1))
      ∷ order m3 (torque_2 left m2.angle m3.angle (left_force c l_0 l_1))
      ∷ order m2 (torque_1 left m2.angle m3.angle (left_force c l_0 l_1))
      ∷ []

  ctrl_loop-orders :
      (chassis : WheelLeggedChassis F (Port F)) (motors : ℕ → UnitreeMotor F) (rest : ℕ → F)
      → IsProduct eigen.times2
      → IsProduct24 eigen.times24
      → (ctrl_loop eigen
          (memory motors rest)
          (bind_virtual_dev (binder crc) chassis).0
          (record { motors = motors; sent = [] })).1.sent
        ≡ orders chassis (motors 0) (motors 1) (motors 2) (motors 3) (motors 4) (motors 5)
  unfolding binder
  ctrl_loop-orders chassis motors rest product product24 =
      let left = chassis.leg_0 in
      let right = chassis.leg_1 in
      let a2 = (motors 2).angle in
      let a3 = (motors 3).angle in
      let a4 = (motors 4).angle in
      let a5 = (motors 5).angle in
      let force =
        leg_forces-closed chassis (leg_length left.l_a left.l_b left.l_c a2 a3)
          (leg_length right.l_a right.l_b right.l_c a5 a4) product24 in
      ap (λ p. p.sent)
        (ctrl_loop-bound (binder crc) eigen chassis (memory motors rest)
          (record { motors = motors; sent = [] }) product)
      ∙ λ i.
          set_torque-order (motors 1) zero_float i
          ∷ set_torque-order (motors 0) zero_float i
          ∷ set_torque-order (motors 4) (torque_2 right a5 a4 (force i).v1) i
          ∷ set_torque-order (motors 5) (torque_1 right a5 a4 (force i).v1) i
          ∷ set_torque-order (motors 3) (torque_2 left a2 a3 (force i).v0) i
          ∷ set_torque-order (motors 2) (torque_1 left a2 a3 (force i).v0) i
          ∷ []

  -- For products as Eigen documents them, on the 16 byte port of at least one motor, whose six bound motors
  -- have their places as numbers: let frames of reports whose members and checksum fit arrive, in whatever
  -- chunks, where the kernel gives no more than it is asked for and is silent only between frames. A
  -- control cycle after a round of the thread for each report and each timeout sends six frames: the
  -- torques of the left leg to the motors 2 and 3, those of the right leg to 5 and 4, and none to 0 and 1,
  -- in this order, each byte by byte. The torques are those of the closed form of the legs for a force of
  -- the controller's output at 0.25 less the mean length, and gravity, at the angles that each
  -- motor's last report says, or at the angle that it had if there was none.
  pub cycle-orders :
      (n : ℕ) (t_inline t_wait : ℤ) (chassis : WheelLeggedChassis F (Port F)) (rest : ℕ → F)
      (rs : List Report) (es : List Event) (served : Served (ℕ → UnitreeMotor F))
      → IsProduct eigen.times2
      → IsProduct24 eigen.times24
      → All (IsSent crc) rs
      → ((k : ℕ) → (served.world k).id ≡ k)
      → bytes es ≡ flatten (map (frame crc) rs)
      → Steady 16 0 es
      → let s = port n t_inline t_wait in
        let after = serial_thread s (unpackers crc six) (length rs + count_timeouts es) es served in
        let heard : ℕ → UnitreeMotor F = λ k. told crc (served.world k) (last_of k rs) in
        (ctrl_loop eigen
          (memory after.world rest)
          (bind_virtual_dev (binder crc) chassis).0
          (record { motors = after.world; sent = [] })).1.sent
        ≡ orders chassis (heard 0) (heard 1) (heard 2) (heard 3) (heard 4) (heard 5)
  cycle-orders n t_inline t_wait chassis rest rs es served product product24 sent ids arrive
        steady =
      let s = port n t_inline t_wait in
      let after = serial_thread s (unpackers crc six) (length rs + count_timeouts es) es served in
      let (hears, _, _) = port-told crc n t_inline t_wait six rs es served sent ids arrive steady in
      ctrl_loop-orders chassis after.world rest product product24 ∙ λ i.
      orders chassis (hears 0 refl i) (hears 1 refl i) (hears 2 refl i) (hears 3 refl i)
        (hears 4 refl i) (hears 5 refl i)
