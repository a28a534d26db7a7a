-- ===== src/Dev/UnitreeMotor.antt =====
-- `class UnitreeMotor` of src/dev/unitree_motor.hpp and src/dev/unitree_motor.cc. Bytes are numbers below
-- 256, and the packed structures are read and written byte by byte, the low byte first. The checksum is
-- that of the library CRC++, a parameter. Log lines are left out, but for that of an error in Messages.
pub mod Words
pub mod Frames
pub mod Bus
pub mod Stream
pub mod Port
pub mod Binder
pub mod Commands
pub mod Torque
pub mod Messages
pub mod Examples
use robo_band.Base.{
  ℕ, ◌+◌, ◌*◌, ◌/◌, ◌%◌, ◌^◌, Bool, true, false, Option, none, some, List, [], ◌∷◌, ◌++◌,
  if◌then◌else◌, ◌==◌, ◌&&◌, ◌||◌, not, length, take,
}
use robo_band.Base.Int.{ℤ, pos, negsuc}
use robo_band.Base.Float.{Float, ◌+ᶠ◌, ◌-ᶠ◌, ◌*ᶠ◌, ◌/ᶠ◌, zero_float}
use robo_band.Io.Serial.{Serial, add_rx_head_tail}
use robo_band.Util.Math.{abs_limit}
use Words.{u16, u32, i8, i16, i32, word, low_bytes}

-- `enum Error`; 0 is NORMAL.
abbrev pub normal : ℕ
normal = 0

-- The members of `Command`, as the integers that they hold.
pub record Command : Type 0 where
  pub torque_set : ℤ
  pub speed_set : ℤ
  pub angle_set : ℤ
  pub k_pos_set : ℤ
  pub k_spd_set : ℤ

-- `Info`: four bits, three bits, one bit.
pub record Info : Type 0 where
  pub id : ℕ
  pub mode : ℕ
  pub reserved : ℕ

pub record SendData : Type 0 where
  pub head0 : ℕ
  pub head1 : ℕ
  pub info : Info
  pub msg : Command
  pub crc : ℕ

pub record UnitreeMotor {ℓ} (F : Type ℓ) : Type ℓ where
  pub id : ℕ
  pub dir : ℤ
  pub send_data : SendData
  pub speed : F
  pub angle : F
  pub angle_offset : F
  pub temp : ℤ
  pub err : ℕ

abbrev pub send_head0 : ℕ
send_head0 = 0xfe

abbrev pub send_head1 : ℕ
send_head1 = 0xee

abbrev pub resv_head0 : ℕ
resv_head0 = 0xfd

abbrev pub resv_head1 : ℕ
resv_head1 = 0xee

abbrev pub foc : ℕ
foc = 1

abbrev pub send_time_us : ℤ
send_time_us = pos 200

-- What the constructor does to the serial port of the motor, besides what that of `Dev` does.
unfoldable pub register_head : Serial → Serial
unfolding add_rx_head_tail
register_head s = add_rx_head_tail s (resv_head0 ∷ resv_head1 ∷ []) []

-- The byte of `Info`.
unfoldable pub info_byte : Info → ℕ
info_byte i = i.id % 16 + 16 * (i.mode % 8) + 128 * (i.reserved % 2)

-- The bytes of `Data<Command>` without its last member.
unfoldable pub command_bytes : SendData → List ℕ
unfolding info_byte
command_bytes d =
    d.head0
    ∷ d.head1
    ∷ info_byte d.info
    ∷ (low_bytes 2 (word 16 d.msg.torque_set)
        ++ (low_bytes 2 (word 16 d.msg.speed_set)
            ++ (low_bytes 4 (word 32 d.msg.angle_set)
                ++ (low_bytes 2 (word 16 d.msg.k_pos_set)
                    ++ low_bytes 2 (word 16 d.msg.k_spd_set)))))

-- `Data<Feedback>`, as the integers that its members hold.
pub record Feedback : Type 0 where
  pub head0 : ℕ
  pub head1 : ℕ
  pub id : ℕ
  pub torque_fbk : ℤ
  pub speed_fbk : ℤ
  pub angle_fbk : ℤ
  pub temp_fbk : ℤ
  pub err : ℕ
  pub crc : ℕ

-- The cast of the data to `Data<Feedback>`; `none` is a read past the end of the data.
unfoldable pub read_feedback : List ℕ → Option Feedback
unfolding u16 u32 i8 i16 i32
read_feedback
      (h0 ∷ h1 ∷ i ∷ t0 ∷ t1 ∷ s0 ∷ s1 ∷ a0 ∷ a1 ∷ a2 ∷ a3 ∷ temp ∷ e0 ∷ e1 ∷ c0 ∷ c1 ∷ rest) =
    some (record {
      head0 = h0;
      head1 = h1;
      id = i % 16;
      torque_fbk = i16 t0 t1;
      speed_fbk = i16 s0 s1;
      angle_fbk = i32 a0 a1 a2 a3;
      temp_fbk = i8 temp;
      err = e0 % 8;
      crc = u16 c0 c1;
    })
read_feedback _ = none

module _ {ℓ} {F : Type ℓ} ⦃f : Float F⦄ where
  abbrev pub ratio : F
  ratio = f.lit 633 100

  -- The constructor. What `send_data` holds before is not set by it, but for the head, the id and the
  -- mode; `raw` is what stands there.
  unfoldable pub new_unitree_motor : SendData → ℕ → ℤ → UnitreeMotor F
  new_unitree_motor raw id dir = record {
    id = id;
    dir = dir;
    send_data = record raw {
      head0 = send_head0;
      head1 = send_head1;
      info = record { id = id % 16; mode = foc; reserved = raw.info.reserved };
    };
    speed = zero_float;
    angle = zero_float;
    angle_offset = zero_float;
    temp = pos 0;
    err = normal;
  }

  unfoldable pub set_angle_offset : UnitreeMotor F → F → UnitreeMotor F
  set_angle_offset m angle_offset = record m { angle_offset = angle_offset }

  unfoldable pub set_angle : UnitreeMotor F → F → UnitreeMotor F
  set_angle m current_angle = record m { angle_offset = m.angle -ᶠ current_angle }

  -- The angle and the speed that a feedback reports.
  unfoldable pub angle_of : UnitreeMotor F → ℤ → F
  angle_of m angle_fbk =
      f.of_int angle_fbk /ᶠ f.lit 32768 1 *ᶠ f.lit 2 1 *ᶠ f.pi /ᶠ ratio *ᶠ f.of_int m.dir
      -ᶠ m.angle_offset

  unfoldable pub speed_of : UnitreeMotor F → ℤ → F
  speed_of m speed_fbk =
      f.of_int speed_fbk /ᶠ f.lit 256 1 *ᶠ f.lit 2 1 *ᶠ f.pi /ᶠ ratio *ᶠ f.of_int m.dir

  module _ (crc_16_kermit : List ℕ → ℕ) where
    -- `setTorque`: the object after, and the bytes that it sends.
    unfoldable pub set_torque : UnitreeMotor F → F → UnitreeMotor F × List ℕ
    unfolding command_bytes
    set_torque m torque =
        let asked = if m.err == normal then torque else zero_float in
        let limited = abs_limit (asked *ᶠ f.of_int m.dir /ᶠ ratio) (f.lit 1279 10) in
        let msg = record m.send_data.msg { torque_set = f.to_int (limited *ᶠ f.lit 256 1) } in
        let filled = record m.send_data { msg = msg } in
        let crc = crc_16_kermit (command_bytes filled) in
        (
          record m { send_data = record filled { crc = crc } },
          command_bytes filled ++ low_bytes 2 crc,
        )

    -- `unpack`: the object after, and whether it takes the data.
    unfoldable pub unpack : UnitreeMotor F → List ℕ → Option (UnitreeMotor F × Bool)
    unfolding read_feedback
    unpack m bytes = elim (read_feedback bytes) [
      | none ↦ none
      | some fbk ↦
          if not (fbk.head0 == resv_head0) || not (fbk.head1 == resv_head1) || not (fbk.id == m.id)
          then some (m, false)
          else if not (fbk.crc == crc_16_kermit (take 14 bytes))
          then some (m, false)
          else some (
            record m {
              angle = angle_of m fbk.angle_fbk;
              speed = speed_of m fbk.speed_fbk;
              temp = fbk.temp_fbk;
              err = fbk.err;
            },
            true,
          )
    ]
