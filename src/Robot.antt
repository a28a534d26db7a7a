-- ===== src/Robot.antt =====
-- `Robot::run` of src/robot/robot.hpp and src/robot/robot.cc, as it is built without USE_WEBOTS: the order
-- in which a robot starts and stops its IOs and its controllers. The IOs and the controllers are
-- different objects, given by their members; the two virtual functions are events. Log lines are left
-- out.
pub mod Threads
pub mod Slots
pub mod Running
pub mod Runs
pub mod Webots
pub mod Examples
use robo_band.Base.{ℕ, zero, suc, Option, none, some, List, [], ◌∷◌, ◌++◌, map}
use robo_band.Io.Lifecycle.{Io, Effect}
use robo_band.Ctrl.Runner.{Runner}
use Threads.{Threaded, io_threaded, runner_threaded}

pub record Robot {ℓ} (F : Type ℓ) : Type ℓ where
  pub ctrls : List (Runner F)
  pub ios : List Io

-- What `run` does, in order: the number is the place of an IO or of a controller in its vector.
pub data Event : Type 0 where
  bind_virtual_dev dev_init sleep : Event
  on_io on_ctrl : ℕ → Effect → Event

module _ {ℓ} {T : Type ℓ} ⦃threaded : Threaded T⦄ (event : ℕ → Effect → Event) where
  -- `run` of each, in the order of the vector from a place on.
  unfoldable pub run_all : ℕ → List T → List T × List Event
  run_all i [] = ([], [])
  run_all i (t ∷ ts) =
      let (t', effects) = threaded.run t in
      let (ts', events) = run_all (suc i) ts in (t' ∷ ts', map (event i) effects ++ events)

  -- `stop` of each; `none` if one throws.
  unfoldable pub stop_all : ℕ → List T → Option (List T × List Event)
  stop_all i [] = some ([], [])
  stop_all i (t ∷ ts) = elim (threaded.stop t) [
    | none ↦ none
    | some (t', effects) ↦ elim (stop_all (suc i) ts) [
      | none ↦ none
      | some (ts', events) ↦ some (t' ∷ ts', map (event i) effects ++ events)
    ]
  ]

-- The loop of the main thread, over the rounds while `running` is true.
unfoldable pub sleep_loop : ℕ → List Event
sleep_loop zero = []
sleep_loop (suc rounds) = sleep ∷ sleep_loop rounds

-- `Robot::run`; `none` if a `stop` throws.
unfoldable pub run {ℓ} : {F : Type ℓ} → ℕ → Robot F → Option (Robot F × List Event)
unfolding run_all stop_all sleep_loop
run rounds robot =
    let (ios, io_starts) = run_all on_io 0 robot.ios in
    let (ctrls, ctrl_starts) = run_all on_ctrl 0 robot.ctrls in
    let starts =
      bind_virtual_dev ∷ (io_starts ++ (dev_init ∷ (ctrl_starts ++ sleep_loop rounds))) in
    elim (stop_all on_ctrl 0 ctrls) [
      | none ↦ none
      | some (ctrls', ctrl_stops) ↦ elim (stop_all on_io 0 ios) [
        | none ↦ none
        | some (ios', io_stops) ↦
            some (record { ctrls = ctrls'; ios = ios' }, starts ++ (ctrl_stops ++ io_stops))
      ]
    ]
