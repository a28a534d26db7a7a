-- ===== src/App/Main.antt =====
-- `main` and `SigintHandler` of app/main.cc, as they are built without USE_WEBOTS and USE_SHOWTIME: from the
-- command line to the end of the process. The path of the project, which `main` takes from the path of
-- the program, is an argument; the set-up of the logger and log lines are left out.
pub mod Endings
pub mod Examples
use Prim.Native.String.{String, ◌++◌}
use robo_band.Base.{ℕ, Option, none, some, List, [], ◌∷◌, length, take}
use robo_band.Base.Int.{ℤ, pos, negsuc}
use robo_band.Base.Float.{Float}
use robo_band.Util.Config.{Toml}
use robo_band.Io.Lifecycle.{new_io}
use robo_band.Ctrl.Runner.{new_runner}
use robo_band.Robot.{Robot, Event}
use robo_band.Robot
use robo_band.App.RobotCreate.{Settings, Created, aokee, robot_create}

-- The process returns from `main`, is ended by the `exit` of the handler, or by an exception.
pub data Ending : Type 0 where
  returned exited : ℤ → Ending
  terminated : Ending

-- `robot_config_path`; `none` if there are too many arguments. The first argument is the program.
unfoldable pub config_path : String → List String → Option String
config_path project_path (program ∷ []) = some (project_path ++ "/cfg/robot.toml")
config_path project_path (program ∷ path ∷ []) = some path
config_path project_path [] = some (project_path ++ "/cfg/robot.toml")
config_path project_path _ = none

module _ {ℓ} {F : Type ℓ} where
  -- The controllers and the IOs of a robot: the chassis and the serial port of Aokee.
  unfoldable pub robot_of : Created F → Option (Robot F)
  robot_of (aokee settings) =
      some (record { ctrls = new_runner settings.cycle_ms ∷ []; ios = new_io 16 ∷ [] })
  robot_of _ = none

  -- `robot->run` and what follows: it makes these rounds before it sees `running` cleared. With `some k`,
  -- a signal comes, and the handler ends the process when the main thread has done k things.
  unfoldable pub run_robot : ℕ → Option ℕ → Robot F → Ending × List Event
  run_robot rounds signal robot = elim (Robot.run rounds robot) [
    | none ↦ (terminated, [])
    | some (_, events) ↦ elim signal [
      | none ↦ (returned (pos 0), events)
      | some k ↦ (exited (pos 0), take k events)
    ]
  ]

module _ {ℓ} {F T N : Type ℓ} ⦃f : Float F⦄ (toml : Toml F T N) where
  -- `main`, with the fuel and the parser of `robot_create`, and the course of `run_robot`.
  unfoldable pub main :
      ℕ → (String → Option T) → String → List String → ℕ → Option ℕ → Ending × List Event
  main fuel parse_file project_path argv rounds signal = elim (config_path project_path argv) [
    | none ↦ (returned (negsuc 0), [])
    | some path ↦ elim (robot_of (robot_create toml fuel parse_file project_path path)) [
      | none ↦ (returned (negsuc 0), [])
      | some robot ↦ run_robot rounds signal robot
    ]
  ]
