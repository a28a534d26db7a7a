-- ===== src/Dev/WebotsMotor/Examples.antt =====
-- A motor that turns backwards, sampled at 0.5 and 0.7 after 5 and 10 ms.
use robo_band.Base.{◌≡◌, refl}
use robo_band.Base.Int.{pos, negsuc, ◌+ℤ◌, ◌-ℤ◌, ◌*ℤ◌, ◌/ℤ◌}
use robo_band.Base.Float.{◌-ᶠ◌, ◌/ᶠ◌}
use robo_band.Base.Float.Milli.{Milli, milli, milli_float}
use robo_band.Dev.WebotsMotor.{WebotsMotor, Tick, new_webots_motor, update, encoder_get_value}
use robo_band.Dev.WebotsMotor.Updates.{angle_at, update-speed}

abbrev motor : WebotsMotor Milli
motor = new_webots_motor (negsuc 0)

abbrev tick_5 : Tick Milli
tick_5 = record {
  now = pos 5;
  encoder = milli (pos 500);
  raw_angle = milli (pos 0);
  raw_time = pos 0;
}

abbrev tick_10 : Tick Milli
tick_10 = record {
  now = pos 10;
  encoder = milli (pos 700);
  raw_angle = milli (pos 0);
  raw_time = pos 0;
}

backwards : update (update motor tick_5) tick_10 ≡ record motor {
  angle = milli (negsuc 699);
  speed = milli (negsuc 39);
  angle_last = milli (negsuc 699);
  time_last = pos 10;
}
unfolding new_webots_motor update encoder_get_value ◌*ℤ◌ ◌+ℤ◌ ◌-ℤ◌ ◌/ℤ◌
backwards = refl

update-speed_example :
    let after = update (update motor tick_5) tick_10 in
    (after.angle ≡ angle_at motor tick_10)
    × (after.speed
        ≡ (angle_at motor tick_10 -ᶠ angle_at motor tick_5) /ᶠ milli_float.of_int (pos 10 -ℤ pos 5))
    × (update after tick_10 ≡ after)
unfolding new_webots_motor
update-speed_example = update-speed motor tick_5 tick_10 tick_10 refl refl refl refl refl refl
