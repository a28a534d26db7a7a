-- ===== src/Io/Webots/Examples.antt =====
-- A simulator with one device that counts its updates and one that keeps the time, until it ends.
use robo_band.Base.{ℕ, suc, ◌≡◌, refl, none, List, [], ◌∷◌}
use robo_band.Base.Int.{ℤ, pos, negsuc, ◌*ℤ◌, ◌/ℤ◌}
use robo_band.Base.Float.Milli.{Milli, milli, milli_float}
use robo_band.Io.Webots.{
  Barrier, new_barrier, Webots, Answer, time_after, is_running, step, steps, make_barrier,
  arrive_at, run_updaters,
}
use robo_band.Io.Webots.Updates.{update_at, times_seen, steps-times}

abbrev io : Webots (ℕ × ℤ)
io = record {
  time = pos 0;
  bind_runner_num = 1;
  sync_point = none;
  updaters = (λ time w. (suc w.0, w.1)) ∷ (λ time w. (w.0, time)) ∷ [];
  basic_time_step = pos 4;
}

abbrev answers : List (Answer Milli × Barrier)
answers =
    (record { result = pos 0; get_time = milli (pos 4) }, new_barrier 2)
    ∷ (record { result = negsuc 0; get_time = milli (pos 8) }, new_barrier 2)
    ∷ (record { result = pos 0; get_time = milli (pos 12) }, new_barrier 2)
    ∷ []

two_updates : (steps answers io (0, pos 9)).1 ≡ (2, pos 4)
unfolding steps step make_barrier arrive_at run_updaters time_after is_running ◌*ℤ◌ ◌/ℤ◌
two_updates = refl

steps-times_example :
    (steps answers io (0, pos 9)).1 ≡ update_at (times_seen answers (pos 0)) io.updaters (0, pos 9)
steps-times_example = steps-times answers io (0, pos 9)
