-- ===== src/Dev/UnitreeMotor/Examples.antt =====
-- Two motors with the numbers 0 and 1 on one port, and a checksum that adds the bytes.
use robo_band.Base.{
  ℕ, ◌+◌, ◌%◌, ◌<◌, ◌≡◌, refl, true, some, List, [], ◌∷◌, ◌++◌, arith, take, drop, map, false,
}
use robo_band.Base.Int.{pos, negsuc}
use robo_band.Base.Float.Milli.{Milli, milli, milli_float}
use robo_band.Io.NoKey.{Served}
use robo_band.Io.Serial.{Event, got, ready, timeout, new_serial, add_rx_head_tail}
use robo_band.Io.Serial.Framing.{bytes}
use robo_band.Io.Serial.Thread.{serial_thread}
use robo_band.Io.Serial.Thread.Chunks.{Steady}
use robo_band.Io.Serial.Thread.Frames.{flatten}
use robo_band.Dev.UnitreeMotor.Stream.{elem, last_of, told, count_unknown}
use robo_band.Dev.UnitreeMotor.Port.{port, port-told}
use robo_band.Io.Serial.Bytes.{insert_or_assign, less}
use robo_band.Dev.UnitreeMotor.{
  register_head, UnitreeMotor, SendData, Info, foc, send_head0, send_head1, new_unitree_motor,
  set_torque, set_angle_offset, info_byte,
}
use robo_band.Dev.UnitreeMotor.Words.{word, low_bytes}
use robo_band.Dev.UnitreeMotor.Frames.{Report, IsFeasible, body, frame}
use robo_band.Dev.UnitreeMotor.Messages.{logged}
use robo_band.Dev.UnitreeMotor.Bus.{unpackers}
use robo_band.Dev.UnitreeMotor.Commands.{
  Call, sets_torque, sets_offset, call, call_all, set_torque-unset,
}

-- The sum of the bytes, kept in sixteen bits.
unfoldable sum : List ℕ → ℕ
sum [] = 0
sum (b ∷ bs) = (b + sum bs) % 65536

abbrev raw : SendData
raw = record {
  head0 = 0;
  head1 = 0;
  info = record { id = 0; mode = 0; reserved = 1 };
  msg = record {
    torque_set = pos 0;
    speed_set = pos 258;
    angle_set = negsuc 0;
    k_pos_set = pos 7;
    k_spd_set = pos 9;
  };
  crc = 0;
}

abbrev motors : ℕ → UnitreeMotor Milli
motors k = new_unitree_motor raw k (pos 1)

abbrev report : Report
report = record {
  id = 1;
  mode = 1;
  torque = pos 0;
  speed = negsuc 255;
  angle = pos 65536;
  temp = pos 40;
  err = 2;
  force = 0;
}

report-IsFeasible : IsFeasible report
report-IsFeasible = record {
  id_fits = ground arith;
  mode_fits = ground arith;
  torque_low = ground arith;
  torque_high = ground arith;
  speed_low = ground arith;
  speed_high = ground arith;
  angle_low = ground arith;
  angle_high = ground arith;
  temp_low = ground arith;
  temp_high = ground arith;
  err_fits = ground arith;
  force_fits = ground arith;
}

sum_fits : sum (body report) < 65536
unfolding sum body low_bytes word
sum_fits = ground arith

abbrev calls : List (Call Milli)
calls = sets_torque (milli (pos 500)) ∷ sets_offset (milli (pos 3)) ∷ []

abbrev last : UnitreeMotor Milli
last = set_angle_offset (set_torque sum (motors 1) (milli (pos 500))).0 (milli (pos 3))

calls-last : call_all sum (motors 1) calls ≡ some last
unfolding call_all call
calls-last = refl

set_torque-unset_example :
    let sent = (set_torque sum last (milli (pos 500))).1 in
    let info : Info = record { id = 1; mode = foc; reserved = 1 } in
    (take 3 sent ≡ send_head0 ∷ send_head1 ∷ info_byte info ∷ [])
    × (take 10 (drop 5 sent)
        ≡ low_bytes 2 (word 16 (pos 258))
          ++ (low_bytes 4 (word 32 (negsuc 0))
              ++ (low_bytes 2 (word 16 (pos 7)) ++ low_bytes 2 (word 16 (pos 9)))))
set_torque-unset_example =
    set_torque-unset sum raw 1 (pos 1) calls last (milli (pos 500)) calls-last

-- Two motors on a port register one head.
heads :
    (register_head (register_head (new_serial 16 (pos 10) (pos 100000)))).head_tails
    ≡ (0xfd ∷ 0xee ∷ [], []) ∷ []
unfolding register_head add_rx_head_tail new_serial insert_or_assign less
heads = refl

-- A silence, and the frame of the report in two chunks, the first of which is one byte.
abbrev events : List Event
events = timeout ∷ got (take 1 (frame sum report)) ∷ ready ∷ got (drop 1 (frame sum report)) ∷ []

abbrev served : Served (ℕ → UnitreeMotor Milli)
served = record { world = motors; warnings = 0; buffer = [] }

ids : (k : ℕ) → (motors k).id ≡ k
unfolding new_unitree_motor
ids k = refl

events-bytes : bytes events ≡ flatten (map (frame sum) (report ∷ []))
unfolding frame
events-bytes = refl

events-Steady : Steady 16 0 events
unfolding frame
events-Steady = (refl, (omega arith, omega arith, (omega arith, omega arith, tt)))

port-told_example :
    let after =
      serial_thread (port 1 (pos 10) (pos 100000)) (unpackers sum (0 ∷ 1 ∷ [])) 2 events served in
    ((k : ℕ)
      → elem k (0 ∷ 1 ∷ []) ≡ true
      → after.world k ≡ told sum (motors k) (last_of k (report ∷ [])))
    × ((k : ℕ) → elem k (0 ∷ 1 ∷ []) ≡ false → after.world k ≡ motors k)
    × (after.warnings ≡ 0 + count_unknown (0 ∷ 1 ∷ []) (report ∷ []))
port-told_example =
    port-told sum 1 (pos 10) (pos 100000) (0 ∷ 1 ∷ []) (report ∷ []) events served
      ((report-IsFeasible, sum_fits), tt) ids events-bytes events-Steady

overcurrent : logged (record (motors 0) { err = 2 }) ≡ some (2, some "Overcurrent")
unfolding logged
overcurrent = refl
