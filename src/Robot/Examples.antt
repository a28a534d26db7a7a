-- ===== src/Robot/Examples.antt =====
-- A robot with one IO and one controller, as Aokee.
use robo_band.Base.{◌≡◌, refl, [], ◌∷◌, some, false}
use robo_band.Base.Int.{pos}
use robo_band.Base.Float.Milli.{Milli, milli, milli_float}
use robo_band.Io.Lifecycle.{joined, new_io, start_thread, join_thread}
use robo_band.Ctrl.Runner.{new_runner}
use robo_band.Robot.{Robot, bind_virtual_dev, dev_init, sleep, on_io, on_ctrl, run, sleep_loop}
use robo_band.Robot.Threads.{io_threaded, runner_threaded}
use robo_band.Robot.Runs.{AllHave, trace, run-trace}

abbrev aokee : Robot Milli
aokee = record { ctrls = new_runner (milli (pos 5000)) ∷ []; ios = new_io 16 ∷ [] }

run-trace_example :
    (robot' : Robot Milli) × (run 2 aokee ≡ some (robot', trace 2 1 1)) × AllHave joined robot'
unfolding new_runner new_io
run-trace_example = run-trace 2 aokee ((refl, tt), (refl, tt))

two_rounds :
    trace 2 1 1
    ≡ bind_virtual_dev
      ∷ on_io 0 start_thread
      ∷ dev_init
      ∷ on_ctrl 0 start_thread
      ∷ sleep
      ∷ sleep
      ∷ on_ctrl 0 join_thread
      ∷ on_io 0 join_thread
      ∷ []
unfolding sleep_loop
two_rounds = refl

abbrev used : Robot Milli
used = record {
  ctrls = record { cycle_ms = milli (pos 5000); running = false; thread = joined } ∷ [];
  ios = record { buffer_size = 16; running = false; thread = joined } ∷ [];
}
