-- ===== src/App/Aokee/Examples.antt =====
-- A retraction with a minimal time of 8 ms and a period of 5 ms, in which the joints stop at once.
use robo_band.Base.{◌≡◌, inl, refl, [], ◌∷◌, ◌++◌}
use robo_band.Base.Int.{pos, neg_ℤ, ◌+ℤ◌, ◌*ℤ◌, ◌/ℤ◌}
use robo_band.Base.Float.Milli.{Milli, milli, milli_float}
use robo_band.Util.Pid.{Pid, new_pid}
use robo_band.App.Aokee.{Aokee, Speeds, dev_init, retracting, done}
use robo_band.App.Aokee.Retract.{
  Stops, AllGoOn, time_after, round_events, rounds, ending, dev_init-rounds, dev_init-ending,
}

abbrev pid : Pid Milli
pid = new_pid (record {
  kp = milli (pos 750);
  ki = milli (pos 100);
  kd = milli (pos 0);
  max_iout = milli (pos 0);
  max_out = milli (pos 20000);
})

abbrev aokee : Aokee Milli
aokee = record {
  pid_retract = pid ∷ pid ∷ pid ∷ pid ∷ [];
  retract_speed = milli (pos 6000);
  motor_stop_speed = milli (pos 20);
  retract_ctrl_cycle_ms = milli (pos 5000);
  retract_time_min_ms = milli (pos 8000);
  joint_limit_angle = milli (pos 3490);
}

abbrev still : Speeds Milli
still = record { commanded = λ _. milli (pos 10); tested = λ _. milli (pos 10) }

still-Stops : Stops aokee (time_after aokee 2 (pos 0)) still
unfolding neg_ℤ ◌+ℤ◌ ◌*ℤ◌ ◌/ℤ◌
still-Stops = (refl, λ i h. refl)

early : AllGoOn aokee (pos 0) (still ∷ still ∷ [])
unfolding ◌+ℤ◌ ◌*ℤ◌ ◌/ℤ◌
early = (inl refl, (inl refl, tt))

dev_init-rounds_example :
    dev_init aokee (still ∷ still ∷ [])
    ≡ retracting (rounds aokee pid pid pid pid (still ∷ still ∷ []))
dev_init-rounds_example = dev_init-rounds aokee pid pid pid pid refl (still ∷ still ∷ []) early

dev_init-ending_example :
    dev_init aokee ((still ∷ still ∷ []) ++ (still ∷ still ∷ []))
    ≡ done (
        rounds aokee pid pid pid pid (still ∷ still ∷ [])
        ++ (round_events aokee pid pid pid pid still ++ ending aokee))
dev_init-ending_example =
    dev_init-ending aokee pid pid pid pid refl (still ∷ still ∷ []) still (still ∷ []) early
      still-Stops
