-- ===== src/Robot/Runs.antt =====
-- What one call of `Robot::run` starts and stops, and what a second one does.
use robo_band.Base.{
  ℕ, zero, ◌+◌, ◌<◌, suc, ◌≡◌, refl, List, [], ◌∷◌, ◌++◌, none, some, length, arith, All, ap, ◌∙◌,
}
use robo_band.Io.Lifecycle.{Io, Thread, null, joinable, joined, Effect, start_thread, join_thread}
use robo_band.Ctrl.Runner.{Runner}
use robo_band.Robot.{
  Robot, Event, bind_virtual_dev, dev_init, on_io, on_ctrl, run_all, stop_all, sleep_loop, run,
}
use robo_band.Robot.Threads.{Threaded, io_threaded, runner_threaded}

-- One effect of each of n objects, from a place on.
abbrev pub each : (ℕ → Effect → Event) → Effect → ℕ → ℕ → List Event
each event effect i zero = []
each event effect i (suc n) = event i effect ∷ each event effect (suc i) n

module _ {ℓ} {T : Type ℓ} ⦃threaded : Threaded T⦄ where
  abbrev pub Has : Thread → T → Type 0
  Has thread t = threaded.thread_of t ≡ thread

  module _ (event : ℕ → Effect → Event) where
    pub run_all-null :
        (ts : List T) (i : ℕ)
        → All (Has null) ts
        → let (ts', events) = run_all event i ts in
          (events ≡ each event start_thread i (length ts))
          × (length ts' ≡ length ts)
          × All (Has joinable) ts'
    unfolding run_all
    run_all-null [] i h = (refl, refl, tt)
    run_all-null (t ∷ ts) i (h, hs) =
        let (started, is_joinable) = threaded.run-null t h in
        let (events, len, all) = run_all-null ts (suc i) hs in
        (rw (started, events, run_all), ap suc len, (is_joinable, all))

    run_all-joined : (ts : List T) (i : ℕ) → All (Has joined) ts → run_all event i ts ≡ (ts, [])
    unfolding run_all
    run_all-joined [] i h = refl
    run_all-joined (t ∷ ts) i (h, hs) = rw (threaded.run-joined t h, run_all-joined ts (suc i) hs)

    stop_all-joinable :
        (ts : List T) (i : ℕ)
        → All (Has joinable) ts
        → (ts' : List T) × (stop_all event i ts ≡ some (ts', each event join_thread i (length ts)))
          × (length ts' ≡ length ts)
          × All (Has joined) ts'
    unfolding stop_all
    stop_all-joinable [] i h = ([], refl, refl, tt)
    stop_all-joinable (t ∷ ts) i (h, hs) =
        let (t', stopped, is_joined) = threaded.stop-joinable t h in
        let (ts', rest, len, all) = stop_all-joinable ts (suc i) hs in
        (t' ∷ ts', rw (stopped, rest, stop_all), ap suc len, (is_joined, all))

    stop_all-joined :
        (ts : List T) (i : ℕ) → All (Has joined) ts → 0 < length ts → stop_all event i ts ≡ none
    unfolding stop_all
    stop_all-joined [] i h few = absurd (omega (arith, few))
    stop_all-joined (t ∷ ts) i (h, hs) some_t = rw (threaded.stop-joined t h, stop_all)

-- The IOs are started first, the controllers after the devices are initialised; the controllers are
-- joined first.
abbrev pub trace : ℕ → ℕ → ℕ → List Event
trace rounds ctrls ios =
    (bind_virtual_dev
      ∷ (each on_io start_thread 0 ios
          ++ (dev_init ∷ (each on_ctrl start_thread 0 ctrls ++ sleep_loop rounds))))
    ++ (each on_ctrl join_thread 0 ctrls ++ each on_io join_thread 0 ios)

module _ {ℓ} {F : Type ℓ} where
  abbrev pub AllHave : Thread → Robot F → Type 0
  AllHave thread robot = All (Has thread) robot.ctrls × All (Has thread) robot.ios

  -- On a robot whose IOs and controllers were never started, `run` returns when `running` is false
  -- after some rounds: it has then bound the virtual devices, started each IO once, initialised the
  -- devices, started each controller once, slept once per round, joined each controller once, and
  -- then each IO once, in this order; and it leaves only joined threads.
  pub run-trace :
      (rounds : ℕ) (robot : Robot F)
      → AllHave null robot
      → (robot' : Robot F) × (run rounds robot
          ≡ some (robot', trace rounds (length robot.ctrls) (length robot.ios)))
        × AllHave joined robot'
  unfolding run
  run-trace rounds robot (c, i) =
      let (ios_started, ios_len, ios_all) = run_all-null on_io robot.ios 0 i in
      let (ctrls_started, ctrls_len, ctrls_all) = run_all-null on_ctrl robot.ctrls 0 c in
      let ios = (run_all on_io 0 robot.ios).0 in
      let ctrls = (run_all on_ctrl 0 robot.ctrls).0 in
      let (ios', ios_stopped, _, ios_joined) = stop_all-joinable on_io ios 0 ios_all in
      let (ctrls', ctrls_stopped, _, ctrls_joined) = stop_all-joinable on_ctrl ctrls 0 ctrls_all in
      (
        record { ctrls = ctrls'; ios = ios' },
        rw (ctrls_stopped, ios_stopped, run) (rw (ios_started, ctrls_started, ios_len, ctrls_len)),
        (ctrls_joined, ios_joined),
      )

  run-ctrls_throw :
      (rounds : ℕ) (ctrls : List (Runner F)) (ios : List Io)
      → stop_all on_ctrl 0 (run_all on_ctrl 0 ctrls).0 ≡ none
      → run rounds (record { ctrls = ctrls; ios = ios }) ≡ none
  unfolding run
  run-ctrls_throw rounds ctrls ios h = rw (h, run)

  run-again_of :
      (rounds : ℕ) (ctrls : List (Runner F)) (ios : List Io)
      → All (Has joined) ctrls
      → All (Has joined) ios
      → 0 < length ctrls + length ios
      → run rounds (record { ctrls = ctrls; ios = ios }) ≡ none
  unfolding run run_all stop_all
  run-again_of rounds [] ios c i few =
      rw (run_all-joined on_io ios 0 i, stop_all-joined on_io ios 0 i (omega (arith, few)), run)
  run-again_of rounds (ctrl ∷ ctrls) ios c i few = run-ctrls_throw rounds (ctrl ∷ ctrls) ios (
      ap (λ r. stop_all on_ctrl 0 r.0) (run_all-joined on_ctrl (ctrl ∷ ctrls) 0 c)
      ∙ stop_all-joined on_ctrl (ctrl ∷ ctrls) 0 c (omega arith))

  -- `run` throws on a robot that has any IO or controller and all of whose threads were joined
  -- before, as they are after a `run`.
  pub run-again :
      (rounds : ℕ) (robot : Robot F)
      → AllHave joined robot
      → 0 < length robot.ctrls + length robot.ios
      → run rounds robot ≡ none
  run-again rounds robot (c, i) few = run-again_of rounds robot.ctrls robot.ios c i few
