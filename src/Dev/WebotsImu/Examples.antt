-- ===== src/Dev/WebotsImu/Examples.antt =====
-- Sensors that give 1, 2 and 3 for the angles and 4, 5 and 6 for the speeds, at 5 ms.
use robo_band.Base.{ℕ, ◌+◌, ◌≡◌, refl}
use robo_band.Base.Int.{pos, negsuc}
use robo_band.Io.Webots.{inertial_get_roll_pitch_yaw, gyro_get_values, is_running}
use robo_band.Dev.WebotsImu.{WebotsImu, Sample, update}

abbrev sample : Sample ℕ
sample = record { roll_pitch_yaw = λ i. i + 1; values = λ i. i + 4 }

abbrev device : WebotsImu ℕ
device = record { angle = λ i. 0; speed = λ i. 0 }

-- The yaw is the third of three values.
yaw_while_running : (update (pos 5) sample device).angle 2 ≡ 3
unfolding update inertial_get_roll_pitch_yaw is_running
yaw_while_running = refl

after_the_end : (update (negsuc 0) sample device).speed 2 ≡ 0
unfolding update gyro_get_values is_running
after_the_end = refl
