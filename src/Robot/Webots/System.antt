-- ===== src/Robot/Webots/System.antt =====
-- The main thread and n runners of a simulated robot, interleaved in any order: the loop and the
-- stopping of `Robot::run` (src/robot/robot.cc), `Webots::step` (src/io/webots.cc), and
-- `Runner::thread_func` and `Runner::stop` (src/ctrl/runner.cc). Tasks and the updates of devices
-- return; what they compute is not part of the state. The threads are those that `run` has started.
use robo_band.Base.{ℕ, suc, ◌<◌, ◌≡◌, Bool, true, false, none, some}
use robo_band.Base.Int.{ℤ, pos, leb_ℤ}
use robo_band.Base.Float.{Float}
use robo_band.Robot.Slots.{set_at}
use robo_band.Io.Webots.{
  Barrier, Webots, Answer, is_running, make_barrier, time_after, arrive_at, next_phase,
}
use robo_band.Ctrl.Runner.Webots.{add_cycle}

-- Where a runner is in `thread_func`.
pub data Place : Type 0 where
  starting : Place  -- before it reads the time
  testing : Place  -- at the test of `running`
  looping : Place  -- before it looks for the barrier
  waiting : Place  -- in `arrive_and_wait`
  comparing : Place  -- before it compares `time_set`
  working : Place  -- in the task
  returned : Place

-- `laps` is how often the runner has arrived at the barrier.
pub record Looper : Type 0 where
  pub running : Bool
  pub place : Place
  pub time_set : ℤ
  pub laps : ℕ

-- Where the main thread is.
pub data MainPlace : Type 0 where
  choosing : MainPlace  -- at the test of `running`
  stepping : MainPlace  -- in `step`, with a barrier
  syncing : MainPlace  -- after the new time is set
  blocked : MainPlace  -- in `arrive_and_wait`
  stopping : ℕ → MainPlace  -- before `stop` of a runner
  joining : ℕ → MainPlace  -- in `join` of it
  finished : MainPlace  -- after the last `stop`

pub record System (W : Type 0) : Type 0 where
  pub io : Webots W
  pub main : MainPlace
  pub main_laps : ℕ
  pub loopers : ℕ → Looper

-- A complete phase lets a thread go on that waits.
abbrev pub released : Looper → Looper
released r = elim r.place [ waiting ↦ record r { place = comparing } | _ ↦ r ]

-- After the wait, the main thread sleeps and goes back to the test of `running`.
abbrev pub released_main : MainPlace → MainPlace
released_main blocked = choosing
released_main main = main

-- The threads of all runners are started, and the simulator has made no step.
unfoldable pub begun : {W : Type 0} → Webots W → System W
begun io = record {
  io = io;
  main = choosing;
  main_laps = 0;
  loopers = λ i. record { running = true; place = starting; time_set = pos 0; laps = 0 };
}

module _ {F : Type 0} ⦃f : Float F⦄ {W : Type 0} where
  -- A step of a runner: what it reads and leaves of the simulator's object, and of its own.
  pub data Move (cycle_ms : F) (io : Webots W) (r : Looper) : Webots W → Looper → Type 0 where
    begin :
        r.place ≡ starting
        → Move cycle_ms io r io (record r { place = testing; time_set = io.time })
    go_on :
        r.place ≡ testing
        → r.running ≡ true
        → Move cycle_ms io r io
            (record r { place = looping; time_set = add_cycle cycle_ms r.time_set })
    return :
        r.place ≡ testing
        → r.running ≡ false
        → Move cycle_ms io r io (record r { place = returned })
    pass :
        r.place ≡ looping
        → io.sync_point ≡ none
        → Move cycle_ms io r io (record r { place = comparing })
    arrive :
        (b : Barrier)
        → r.place ≡ looping
        → io.sync_point ≡ some b
        → Move cycle_ms io r (arrive_at io) (record r { place = waiting; laps = suc r.laps })
    work :
        r.place ≡ comparing
        → leb_ℤ io.time r.time_set ≡ true
        → Move cycle_ms io r io (record r { place = working })
    skip :
        r.place ≡ comparing
        → leb_ℤ io.time r.time_set ≡ false
        → Move cycle_ms io r io (record r { place = testing })
    worked : r.place ≡ working → Move cycle_ms io r io (record r { place = testing })

  -- A step of the system with n runners of these cycles.
  pub data Step (cycles : ℕ → F) (n : ℕ) (s : System W) : System W → Type 0 where
    pick :
        (i : ℕ) {io : Webots W} {r : Looper}
        → i < n
        → Move (cycles i) s.io (s.loopers i) io r
        → Step cycles n s (record s { io = io; loopers = set_at s.loopers i r })
    -- The last arrival of a phase.
    complete :
        (b : Barrier)
        → s.io.sync_point ≡ some b
        → b.arrived ≡ b.expected
        → Step cycles n s (record s {
          io = record s.io { sync_point = some (next_phase b) };
          main = released_main s.main;
          loopers = λ i. released (s.loopers i);
        })
    -- The main thread goes on with `step`, or it finds `running` false.
    enter :
        s.main ≡ choosing → Step cycles n s (record s { io = make_barrier s.io; main = stepping })
    leave : s.main ≡ choosing → Step cycles n s (record s { main = stopping 0 })
    -- The simulator has made a step, or it has ended.
    advance :
        (answer : Answer F)
        → s.main ≡ stepping
        → is_running (time_after answer) ≡ true
        → Step cycles n s
            (record s { io = record s.io { time = time_after answer }; main = syncing })
    end :
        (answer : Answer F)
        → s.main ≡ stepping
        → is_running (time_after answer) ≡ false
        → Step cycles n s
            (record s { io = record s.io { time = time_after answer }; main = stopping 0 })
    sync :
        s.main ≡ syncing
        → Step cycles n s
            (record s { io = arrive_at s.io; main = blocked; main_laps = suc s.main_laps })
    stop :
        (i : ℕ)
        → s.main ≡ stopping i
        → i < n
        → Step cycles n s (record s {
          main = joining i;
          loopers = set_at s.loopers i (record (s.loopers i) { running = false });
        })
    join :
        (i : ℕ)
        → s.main ≡ joining i
        → (s.loopers i).place ≡ returned
        → Step cycles n s (record s { main = stopping (suc i) })
    finish : s.main ≡ stopping n → Step cycles n s (record s { main = finished })

  pub data Reach (cycles : ℕ → F) (n : ℕ) (s : System W) : System W → Type 0 where
    here : Reach cycles n s s
    later : {t u : System W} → Reach cycles n s t → Step cycles n t u → Reach cycles n s u
