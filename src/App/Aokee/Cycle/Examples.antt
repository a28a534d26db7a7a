-- ===== src/App/Aokee/Cycle/Examples.antt =====
-- The motor 2 reports twice, in two chunks each time; the others are silent. The checksum is the length.
use robo_band.Base.{ℕ, ◌≡◌, refl, List, [], ◌∷◌, map, take, drop, length, arith}
use robo_band.Base.Int.{pos, negsuc}
use robo_band.Base.Float.Milli.{Milli, milli, milli_float}
use robo_band.Base.Float.Crude.{crude_trig}
use robo_band.Util.Pid.{new_pid_of_values}
use robo_band.Io.NoKey.{Served}
use robo_band.Io.Serial.{Event, got, ready, timeout}
use robo_band.Io.Serial.Framing.{bytes}
use robo_band.Io.Serial.Thread.{serial_thread}
use robo_band.Io.Serial.Thread.Chunks.{Steady}
use robo_band.Io.Serial.Thread.Frames.{flatten}
use robo_band.Dev.UnitreeMotor.{UnitreeMotor, SendData, new_unitree_motor}
use robo_band.Dev.UnitreeMotor.Frames.{Report, body, frame}
use robo_band.Dev.UnitreeMotor.Bus.{unpackers}
use robo_band.Dev.UnitreeMotor.Stream.{last_of, told, IsSent}
use robo_band.Dev.UnitreeMotor.Binder.{Port, memory, binder}
use robo_band.Dev.UnitreeMotor.Port.{port}
use robo_band.Virtual.Motor.{new_motor}
use robo_band.Virtual.FiveLink.{FiveLink, new_five_link}
use robo_band.Ctrl.WheelLeggedChassis.Products.{milli_eigen}
use robo_band.Ctrl.WheelLeggedChassis.{WheelLeggedChassis, new_wheel_legged_chassis, ctrl_loop}
use robo_band.App.Aokee.Binding.{bind_virtual_dev}
use robo_band.App.Aokee.Cycle.{six, orders, cycle-orders}

abbrev raw : SendData
raw = record {
  head0 = 0;
  head1 = 0;
  info = record { id = 0; mode = 0; reserved = 0 };
  msg = record {
    torque_set = pos 0;
    speed_set = pos 0;
    angle_set = pos 0;
    k_pos_set = pos 0;
    k_spd_set = pos 0;
  };
  crc = 0;
}

abbrev served : Served (ℕ → UnitreeMotor Milli)
served = record { world = λ k. new_unitree_motor raw k (pos 1); warnings = 0; buffer = [] }

ids : (k : ℕ) → (served.world k).id ≡ k
unfolding new_unitree_motor
ids k = refl

abbrev report : Report
report = record {
  id = 2;
  mode = 1;
  torque = pos 0;
  speed = negsuc 255;
  angle = pos 65536;
  temp = pos 40;
  err = 0;
  force = 0;
}

report-IsSent : IsSent length report
unfolding body
report-IsSent = (
  record {
    id_fits = ground arith;
    mode_fits = ground arith;
    torque_low = ground arith;
    torque_high = ground arith;
    speed_low = ground arith;
    speed_high = ground arith;
    angle_low = ground arith;
    angle_high = ground arith;
    temp_low = ground arith;
    temp_high = ground arith;
    err_fits = ground arith;
    force_fits = ground arith;
  },
  omega arith,
)

abbrev reports : List Report
reports = report ∷ report ∷ []

abbrev events : List Event
events =
    got (take 1 (frame length report))
    ∷ ready
    ∷ got (drop 1 (frame length report))
    ∷ timeout
    ∷ got (take 9 (frame length report))
    ∷ got (drop 9 (frame length report))
    ∷ []

events-bytes : bytes events ≡ flatten (map (frame length) reports)
unfolding frame
events-bytes = refl

events-Steady : Steady 16 0 events
unfolding frame
events-Steady = (
  omega arith,
  omega arith,
  (omega arith, omega arith, (refl, (omega arith, omega arith, (omega arith, omega arith, tt)))),
)

abbrev leg : ℕ → FiveLink Milli (Port Milli)
leg i =
    let zero = milli (pos 0) in
    new_five_link (milli (pos 75)) (milli (pos 140)) (milli (pos 240))
      (record { m00 = zero; m01 = zero; m10 = zero; m11 = zero }) (new_motor i i) (new_motor i i)

abbrev chassis : WheelLeggedChassis Milli (Port Milli)
chassis =
    new_wheel_legged_chassis (leg 0) (leg 1) (new_motor 2 2) (new_motor 3 3) (milli (pos 60000)) (
      new_pid_of_values (milli (pos 500000)) (milli (pos 100)) (milli (pos 0)) (milli (pos 9000))
        (milli (pos 90000)))

cycle-orders_example :
    let s = port 5 (pos 10) (pos 100000) in
    let after = serial_thread s (unpackers length six) 3 events served in
    let heard : ℕ → UnitreeMotor Milli = λ k. told length (served.world k) (last_of k reports) in
    (ctrl_loop milli_eigen
      (memory after.world (λ p. milli (pos 0)))
      (bind_virtual_dev (binder length) chassis).0
      (record { motors = after.world; sent = [] })).1.sent
    ≡ orders length milli_eigen chassis (heard 0) (heard 1) (heard 2) (heard 3) (heard 4) (heard 5)
cycle-orders_example =
    cycle-orders length milli_eigen 5 (pos 10) (pos 100000) chassis (λ p. milli (pos 0)) reports
      events served (λ m v. refl) (λ m v. refl) (report-IsSent, (report-IsSent, tt)) ids
      events-bytes events-Steady
