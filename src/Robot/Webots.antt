-- ===== src/Robot/Webots.antt =====
-- `Robot::run` of src/robot/robot.cc as it is built with USE_WEBOTS: here its first part, up to the loop.
-- The loop and the stopping, in which the main thread and the runners meet, are in System.
pub mod Start
pub mod System
pub mod Family
pub mod Invariant
pub mod Lockstep
pub mod Progress
pub mod Release
pub mod Hang
pub mod Examples
use robo_band.Base.{ℕ, suc, List, [], ◌∷◌, ◌++◌, map}
use robo_band.Io.Lifecycle.{Io}
use robo_band.Io.Webots.{Webots}
use robo_band.Ctrl.Runner.Webots.{WebotsRunner}
use robo_band.Ctrl.Runner.Webots
use robo_band.Robot.{Event, bind_virtual_dev, dev_init, on_io, on_ctrl, run_all}
use robo_band.Robot.Threads.{io_threaded}

pub record WebotsRobot {ℓ κ} (F : Type ℓ) (W : Type κ) : Type (ℓ ⊔ κ) where
  pub ctrls : List (WebotsRunner F)
  pub webots_io : Webots W
  pub ios : List Io

module _ {ℓ} {F : Type ℓ} where
  -- `bind` of each runner to the simulator, which is at an address.
  unfoldable pub bind_all {κ} :
      {W : Type κ} → ℕ → List (WebotsRunner F) → Webots W → List (WebotsRunner F) × Webots W
  bind_all address [] io = ([], io)
  bind_all address (ctrl ∷ ctrls) io =
      let (ctrl', io') = Webots.bind ctrl address io in
      let (ctrls', io'') = bind_all address ctrls io' in (ctrl' ∷ ctrls', io'')

  -- `run` of each runner, from a place on.
  unfoldable pub run_ctrls : ℕ → List (WebotsRunner F) → List (WebotsRunner F) × List Event
  run_ctrls i [] = ([], [])
  run_ctrls i (ctrl ∷ ctrls) =
      let (ctrl', effects) = Webots.run ctrl in
      let (ctrls', events) = run_ctrls (suc i) ctrls in
      (ctrl' ∷ ctrls', map (on_ctrl i) effects ++ events)

  unfoldable pub start {κ} : {W : Type κ} → ℕ → WebotsRobot F W → WebotsRobot F W × List Event
  start address robot =
      let (bound, webots_io) = bind_all address robot.ctrls robot.webots_io in
      let (ios, io_starts) = run_all on_io 0 robot.ios in
      let (ctrls, ctrl_starts) = run_ctrls 0 bound in
      (
        record { ctrls = ctrls; webots_io = webots_io; ios = ios },
        bind_virtual_dev ∷ (io_starts ++ (dev_init ∷ ctrl_starts)),
      )
