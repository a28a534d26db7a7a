-- ===== src/Ctrl/Runner/Webots/Examples.antt =====
-- Runners with cycles of 5 ms and 3 ms on a simulator with steps of 4 ms.
use robo_band.Base.{◌≡◌, refl, false, [], ◌∷◌, replicate, leb, arith, none}
use robo_band.Base.Int.{pos, ◌+ℤ◌, ◌*ℤ◌, ◌/ℤ◌}
use robo_band.Base.Float.Milli.{Milli, milli, milli_float}
use robo_band.Ctrl.Runner.{new_runner}
use robo_band.Ctrl.Runner.Webots.{WebotsRunner, run, thread_func, add_cycle}
use robo_band.Ctrl.Runner.Webots.Rounds.{IsExact, step_times, thread_func-rounds}

abbrev unbound : WebotsRunner Milli
unbound = record { runner = new_runner (milli (pos 5000)); webots_io = none }

run_unbound : run unbound ≡ (unbound, [])
unfolding run
run_unbound = refl

too_long : thread_func (milli (pos 3000)) (pos 4 ∷ pos 8 ∷ pos 12 ∷ []) (pos 0) ≡ replicate 3 false
unfolding thread_func add_cycle ◌*ℤ◌ ◌/ℤ◌ ◌+ℤ◌
too_long = refl

exact : IsExact (milli (pos 5000)) (pos 0) 5
unfolding add_cycle ◌*ℤ◌ ◌/ℤ◌ ◌+ℤ◌
exact k = ground arith

thread_func-rounds_example :
    thread_func (milli (pos 5000)) (step_times (pos 0) 4 0 3) (pos 0) ≡ replicate 3 (leb 4 5)
thread_func-rounds_example = thread_func-rounds (milli (pos 5000)) (pos 0) 5 4 3 exact
