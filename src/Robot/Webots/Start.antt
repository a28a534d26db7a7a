-- ===== src/Robot/Webots/Start.antt =====
-- What `Robot::run` has done when it comes to its loop.
use robo_band.Base.{
  ℕ, suc, ◌+◌, ◌≡◌, refl, ap, true, some, List, [], ◌∷◌, ◌++◌, length, arith, All, ◌∙◌,
}
use robo_band.Io.Lifecycle.{null, joinable, start_thread}
use robo_band.Io.Webots.{Webots}
use robo_band.Ctrl.Runner.Webots.{WebotsRunner}
use robo_band.Ctrl.Runner.Webots as Runner
use robo_band.Robot.{bind_virtual_dev, dev_init, on_io, on_ctrl}
use robo_band.Robot.Threads.{io_threaded}
use robo_band.Robot.Runs.{each, Has, run_all-null}
use robo_band.Robot.Webots.Invariant.{IsFresh}
use robo_band.Robot.Webots.{WebotsRobot, bind_all, run_ctrls, start}

module _ {F : Type 0} where
  abbrev pub IsNew : WebotsRunner F → Type 0
  IsNew ctrl = ctrl.runner.thread ≡ null

  abbrev IsBound : ℕ → WebotsRunner F → Type 0
  IsBound address ctrl = (ctrl.runner.thread ≡ null) × (ctrl.webots_io ≡ some address)

  abbrev pub IsStarted : ℕ → WebotsRunner F → Type 0
  IsStarted address ctrl =
      (ctrl.webots_io ≡ some address)
      × (ctrl.runner.thread ≡ joinable)
      × (ctrl.runner.running ≡ true)

  bind_all-IsBound :
      {W : Type 0} (address : ℕ) (ctrls : List (WebotsRunner F)) (io : Webots W)
      → All IsNew ctrls
      → let (ctrls', io') = bind_all address ctrls io in
        All (IsBound address) ctrls'
        × (length ctrls' ≡ length ctrls)
        × (io'.bind_runner_num ≡ io.bind_runner_num + length ctrls)
        × (io'.sync_point ≡ io.sync_point)
  unfolding bind_all Runner.bind
  bind_all-IsBound address [] io news = (tt, refl, omega arith, refl)
  bind_all-IsBound {W} address (ctrl ∷ ctrls) io (new, news) =
      let io' : Webots W = record io { bind_runner_num = io.bind_runner_num + 1 } in
      let (all, len, count, free) = bind_all-IsBound address ctrls io' news in
      (((new, refl), all), ap suc len, omega (arith, count), free)

  run_ctrls-IsStarted :
      (address : ℕ) (ctrls : List (WebotsRunner F)) (i : ℕ)
      → All (IsBound address) ctrls
      → let (ctrls', events) = run_ctrls i ctrls in
        All (IsStarted address) ctrls' × (events ≡ each on_ctrl start_thread i (length ctrls))
  unfolding run_ctrls Runner.run
  run_ctrls-IsStarted address [] i bound = (tt, refl)
  run_ctrls-IsStarted address (ctrl ∷ ctrls) i ((new, here), bound) =
      let (all, events) = run_ctrls-IsStarted address ctrls (suc i) bound in
      (
        (
          (rw (here, new, Runner.run) here, rw (here, new, Runner.run), rw (here, new, Runner.run)),
          all,
        ),
        rw (here, new, events, Runner.run),
      )

  -- The first part of `Robot::run`, on a robot none of whose threads was started, binds the virtual
  -- devices, starts each IO once, initialises the devices and starts each controller once, in this order.
  -- Then every controller is bound to the simulator and has a running thread; the simulator counts them
  -- on top of what it counted before, and has no barrier if it had none.
  pub start-IsStarted :
      {W : Type 0} (address : ℕ) (robot : WebotsRobot F W)
      → All IsNew robot.ctrls
      → All (Has null) robot.ios
      → let (robot', events) = start address robot in
        (events
          ≡ bind_virtual_dev
            ∷ (each on_io start_thread 0 (length robot.ios)
                ++ (dev_init ∷ each on_ctrl start_thread 0 (length robot.ctrls))))
        × All (IsStarted address) robot'.ctrls
        × All (Has joinable) robot'.ios
        × (robot'.webots_io.bind_runner_num ≡ robot.webots_io.bind_runner_num + length robot.ctrls)
        × (robot'.webots_io.sync_point ≡ robot.webots_io.sync_point)
  unfolding start
  start-IsStarted {W} address robot news ios_news =
      let (bound, len, count, free) = bind_all-IsBound address robot.ctrls robot.webots_io news in
      let ctrls = (bind_all address robot.ctrls robot.webots_io).0 in
      let (all, ctrl_events) = run_ctrls-IsStarted address ctrls 0 bound in
      let (io_events, _, ios_all) = run_all-null on_io robot.ios 0 ios_news in
      (rw (io_events, ctrl_events, len), all, ios_all, count, free)

  -- If the simulator had no barrier and counted no runner, it is ready for the threads of all controllers.
  pub start-IsFresh :
      {W : Type 0} (address : ℕ) (robot : WebotsRobot F W)
      → All IsNew robot.ctrls
      → All (Has null) robot.ios
      → IsFresh 0 robot.webots_io
      → IsFresh (length robot.ctrls) (start address robot).0.webots_io
  start-IsFresh address robot news ios_news (none_bound, no_barrier) =
      let (_, _, _, count, free) = start-IsStarted address robot news ios_news in
      (omega (arith, count, none_bound), free ∙ no_barrier)
