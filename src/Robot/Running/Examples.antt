-- ===== src/Robot/Running/Examples.antt =====
-- A robot with one IO and one controller.
use robo_band.Base.{ℕ, ◌<◌, ◌≤◌, ◌≡◌, ◌≢◌, refl, true, arith, ◌⊎◌}
use robo_band.Robot.Slots.{set_at}
use robo_band.Robot.Running.{
  working, blocked, blocks, returned, Worker, initialising, starting_ctrl, joining_ctrl, finished,
  Team, started, told, bound, Move, go_on, Step, ctrl_moves, start_io, ios_started, initialised,
  start_ctrl, ctrls_started, quit, stop_ctrl, Reach, here, later,
}
use robo_band.Robot.Running.Phases.{busy}
use robo_band.Robot.Running.Order.{run-order}
use robo_band.Robot.Running.Joins.{of_ctrl, waits, stop-waits}

abbrev after_start : Team
after_start = record bound {
  main = starting_ctrl 1;
  ios = set_at bound.ios 0 started;
  ctrls = set_at bound.ctrls 0 started;
}

-- The task runs.
abbrev at_work : Team
at_work = record after_start {
  ctrls = set_at after_start.ctrls 0 (record (after_start.ctrls 0) { place = working });
}

abbrev at_stop : Team
at_stop = record at_work {
  main = joining_ctrl 0;
  ctrls = set_at at_work.ctrls 0 (told (at_work.ctrls 0));
}

starts : Reach 1 1 bound after_start
unfolding bound
starts =
    later
      (later (later (later here (start_io 0 refl (omega arith))) (ios_started refl))
        (initialised refl))
      (start_ctrl 0 refl (omega arith))

works : Reach 1 1 bound at_work
unfolding bound
works = later starts (ctrl_moves 0 (omega arith) (go_on refl refl))

stops : Reach 1 1 bound at_stop
unfolding bound
stops =
    later (later (later works (ctrls_started refl)) (quit refl)) (stop_ctrl 0 refl (omega arith))

run-order_example :
    ((i : ℕ)
      → i < 1
      → busy (at_work.ctrls i).place ≡ true
      → (at_work.main ≢ initialising)
        × ((j : ℕ)
            → j < 1
            → ((at_work.ios j).running ≡ true) × (busy (at_work.ios j).place ≡ true)))
    × (at_work.main ≡ finished
        → ((j : ℕ) → j < 1 → (at_work.ios j).place ≡ returned)
          × ((i : ℕ) → i < 1 → (at_work.ctrls i).place ≡ returned))
run-order_example = run-order works

stop-waits_example :
    (0 ≤ 2)
    × (((at_stop.ctrls 0).place ≡ returned)
        ⊎ ((at_stop.ctrls 0).place ≡ blocked)
        ⊎ ((w : Worker) × Move (at_stop.ctrls 0) w × (w.place ≢ blocked)))
    × ((u : Team)
        → Step 1 1 at_stop u
        → u.main ≡ joining_ctrl 0
        → (u.ctrls 0 ≡ at_stop.ctrls 0) ⊎ Move (at_stop.ctrls 0) (u.ctrls 0))
stop-waits_example = stop-waits 0 stops (of_ctrl 0) (waits refl)

-- The task does not end.
abbrev at_hang : Team
at_hang = record at_stop {
  ctrls = set_at at_stop.ctrls 0 (record (at_stop.ctrls 0) { place = blocked });
}

-- Meanwhile the thread of the IO reads.
abbrev still_hanging : Team
still_hanging = record at_hang {
  ios = set_at at_hang.ios 0 (record (at_hang.ios 0) { place = working });
}

hangs : Reach 1 1 bound at_hang
hangs = later stops (ctrl_moves 0 (omega arith) (blocks refl))
