-- ===== src/App/Main/Endings.antt =====
-- How the program ends, and what it has started and stopped then.
use Prim.Native.String.{String}
use robo_band.Base.{
  ℕ, zero, suc, ◌+◌, ◌≤◌, ◌≡◌, refl, ◌∙◌, Option, none, some, List, [], ◌∷◌, ◌++◌, take, arith, All,
  All-take, take-append_le, length, Bool, true, false, Option-cases, inl, inr, ◌⊎◌,
}
use robo_band.Base.Int.{pos, negsuc}
use robo_band.Base.Float.{Float}
use robo_band.Util.Config.{Toml}
use robo_band.Io.Lifecycle.{new_io, start_thread, join_thread}
use robo_band.Ctrl.Runner.{new_runner}
use robo_band.Robot.{Robot, Event, bind_virtual_dev, dev_init, on_io, on_ctrl, sleep, sleep_loop}
use robo_band.Robot
use robo_band.Robot.Runs.{run-trace}
use robo_band.App.RobotCreate.{Settings, Created, aokee, robot_create}
use robo_band.App.Main.{Ending, returned, exited, config_path, robot_of, run_robot, main}

-- What Aokee does up to the end of its loop, and what it does then.
abbrev pub started : ℕ → List Event
started rounds =
    bind_virtual_dev ∷ on_io 0 start_thread ∷ dev_init ∷ on_ctrl 0 start_thread ∷ sleep_loop rounds

abbrev pub stopped : List Event
stopped = on_ctrl 0 join_thread ∷ on_io 0 join_thread ∷ []

-- The rest of a process that has a robot, without a signal or with one after k events.
abbrev pub course : ℕ → Option ℕ → Ending × List Event
course rounds none = (returned (pos 0), started rounds ++ stopped)
course rounds (some k) = (exited (pos 0), take k (started rounds ++ stopped))

module _ {F : Type 0} where
  abbrev robot_for : Settings F → Robot F
  robot_for settings = record { ctrls = new_runner settings.cycle_ms ∷ []; ios = new_io 16 ∷ [] }

  robot_run :
      (rounds : ℕ) (settings : Settings F)
      → (robot' : Robot F) × (Robot.run rounds (robot_for settings)
          ≡ some (robot', started rounds ++ stopped))
  unfolding new_runner new_io
  robot_run rounds settings =
      let (robot', trace_of, _) = run-trace rounds (robot_for settings) ((refl, tt), (refl, tt)) in
      (robot', trace_of)

  run_robot-course :
      (rounds : ℕ) (settings : Settings F) (signal : Option ℕ)
      → run_robot rounds signal (robot_for settings) ≡ course rounds signal
  unfolding run_robot
  run_robot-course rounds settings none =
      let (robot', ran) = robot_run rounds settings in rw (ran, run_robot) refl
  run_robot-course rounds settings (some k) =
      let (robot', ran) = robot_run rounds settings in rw (ran, run_robot) refl

-- Does an event join a thread?
abbrev pub joins : Event → Bool
joins (on_ctrl _ join_thread) = true
joins (on_io _ join_thread) = true
joins _ = false

abbrev pub StopsNothing : List Event → Type 0
StopsNothing events = All (λ event. joins event ≡ false) events

sleep_loop-StopsNothing : (rounds : ℕ) → StopsNothing (sleep_loop rounds)
unfolding sleep_loop
sleep_loop-StopsNothing zero = tt
sleep_loop-StopsNothing (suc rounds) = (refl, sleep_loop-StopsNothing rounds)

started-StopsNothing : (rounds : ℕ) → StopsNothing (started rounds)
started-StopsNothing rounds = (refl, (refl, (refl, (refl, sleep_loop-StopsNothing rounds))))

length-started : (rounds : ℕ) → length (started rounds) ≡ 4 + rounds
unfolding sleep_loop
length-started zero = refl
length-started (suc rounds) = omega (arith, length-started rounds)

Created-cases :
    {F : Type 0} (created : Created F)
    → (robot_of created ≡ none)
      ⊎ ((settings : Settings F) × (created ≡ aokee settings)
          × (robot_of created ≡ some (robot_for settings)))
unfolding robot_of
Created-cases (aokee settings) = inr (settings, refl, refl)
Created-cases _ = inl refl

module _ {F T N : Type 0} ⦃f : Float F⦄ (toml : Toml F T N) (fuel : ℕ)
    (parse_file : String → Option T) (project_path : String) where
  -- `main` returns -1 without touching a robot if there are more than one argument or `robotCreate`
  -- gives no robot. Otherwise it has a robot of Aokee, and without a signal returns 0 after it has
  -- started the serial port and the chassis, made its rounds, and stopped both; with a signal it
  -- exits with 0 after the first k of these events. It never ends by an exception.
  pub main-endings :
      (argv : List String) (rounds : ℕ) (signal : Option ℕ)
      → let ends = main toml fuel parse_file project_path argv rounds signal in
        let create = robot_create toml fuel parse_file project_path in
        ((ends ≡ (returned (negsuc 0), []))
          × ((config_path project_path argv ≡ none)
              ⊎ ((path : String) × (config_path project_path argv ≡ some path)
                  × (robot_of (create path) ≡ none))))
        ⊎ ((path : String) × (settings : Settings F) × (config_path project_path argv ≡ some path)
            × (create path ≡ aokee settings)
            × (ends ≡ course rounds signal))
  unfolding main
  main-endings argv rounds signal = elim (Option-cases (config_path project_path argv)) [
    | inl many ↦ inl (rw (many, main) refl, inl many)
    | inr (path, at) ↦ elim (Created-cases (robot_create toml fuel parse_file project_path path)) [
      | inl failed ↦ inl (rw (at, failed, main) refl, inr (path, at, failed))
      | inr (settings, created, robot) ↦ inr (
        path,
        settings,
        at,
        created,
        rw (at, robot, main) (run_robot-course rounds settings signal),
      )
    ]
  ]

  -- If the arguments and the configuration give a robot, and a signal comes while the main thread is not
  -- beyond its loop, the process exits with 0, and no controller and no IO is stopped.
  pub main-interrupted :
      (argv : List String) (path : String) (settings : Settings F) (rounds k : ℕ)
      → config_path project_path argv ≡ some path
      → robot_create toml fuel parse_file project_path path ≡ aokee settings
      → k ≤ 4 + rounds
      → let ends = main toml fuel parse_file project_path argv rounds (some k) in
        (ends ≡ (exited (pos 0), take k (started rounds))) × StopsNothing (take k (started rounds))
  unfolding main robot_of
  main-interrupted argv path settings rounds k at created early = (
    rw (at, created, main)
        (run_robot-course rounds settings (some k)
          ∙ rw (take-append_le k (started rounds) stopped (omega (arith, length-started rounds)))
              refl),
    All-take (λ event. joins event ≡ false) k (started rounds) (started-StopsNothing rounds),
  )
