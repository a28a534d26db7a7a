-- ===== src/Robot/Webots/Examples.antt =====
-- A simulator that ends in its first step, while its one runner waits at the barrier.
use robo_band.Base.{ℕ, ◌+◌, ◌*◌, ◌≤◌, ◌≡◌, ◌≢◌, refl, true, none, [], arith, ◌⊎◌}
use robo_band.Base.Int.{pos, negsuc, ◌*ℤ◌, ◌/ℤ◌}
use robo_band.Base.Float.Milli.{Milli, milli, milli_float}
use robo_band.Io.Webots.{Webots, Answer, make_barrier, arrive_at, time_after, is_running}
use robo_band.Ctrl.Runner.Webots.{add_cycle}
use robo_band.Robot.Threads.{io_threaded}
use robo_band.Robot.Slots.{set_at}
use robo_band.Robot.Webots.System.{
  testing, looping, waiting, System, begun, Reach, here, later, Step, pick, enter, advance, sync,
  end, begin, go_on, arrive, choosing, stepping, syncing, blocked, stopping, finished,
}
use robo_band.Robot.Webots.Family.{wait}
use robo_band.Robot.Webots.Invariant.{in_loop, main_wait}
use robo_band.Robot.Webots.Lockstep.{laps-lockstep}
use robo_band.Robot.Webots.Hang.{Hangs, stop-Hangs}
use robo_band.Robot.Webots.Progress.{CanStep, Stuck, Reach-progress}
use robo_band.Robot.Webots.Release.{waits, barrier-releases}

abbrev io : Webots ℕ
io = record {
  time = pos 0;
  bind_runner_num = 1;
  sync_point = none;
  updaters = [];
  basic_time_step = pos 4;
}

abbrev cycles : ℕ → Milli
cycles i = milli (pos 5000)

abbrev entered : System ℕ
entered = record (begun io) { io = make_barrier io; main = stepping }

abbrev after_begin : System ℕ
after_begin = record entered {
  loopers =
      set_at entered.loopers 0
        (record (entered.loopers 0) { place = testing; time_set = entered.io.time });
}

abbrev after_go_on : System ℕ
after_go_on = record after_begin {
  loopers = set_at after_begin.loopers 0 (record (after_begin.loopers 0) {
    place = looping;
    time_set = add_cycle (milli (pos 5000)) (after_begin.loopers 0).time_set;
  });
}

abbrev after_arrive : System ℕ
after_arrive = record after_go_on {
  io = arrive_at after_go_on.io;
  loopers =
      set_at after_go_on.loopers 0 (record (after_go_on.loopers 0) { place = waiting; laps = 1 });
}

abbrev ended : Answer Milli
ended = record { result = negsuc 0; get_time = milli (pos 0) }

abbrev after_end : System ℕ
after_end = record after_arrive {
  io = record after_arrive.io { time = time_after ended };
  main = stopping 0;
}

run_waits : Reach cycles 1 (begun io) after_arrive
unfolding begun make_barrier
run_waits =
    later
      (later (later (later here (enter refl)) (pick 0 (omega arith) (begin refl)))
        (pick 0 (omega arith) (go_on refl refl)))
      (pick 0 (omega arith) (arrive (record { expected = 2; arrived = 0; phase = 0 }) refl refl))

run_ends : Reach cycles 1 (begun io) after_end
unfolding time_after is_running begun
run_ends = later run_waits (end ended refl refl)

end-Hangs : Hangs 0 after_end
end-Hangs = record { left = refl; waits = refl }

laps-lockstep_example :
    ((after_end.loopers 0).laps + wait (after_end.loopers 0)
      ≡ (after_end.loopers 0).laps + wait (after_end.loopers 0))
    × ((after_end.loopers 0).laps + main_wait after_end.main
        ≡ after_end.main_laps + wait (after_end.loopers 0))
laps-lockstep_example = laps-lockstep io 0 0 (refl, refl) run_ends (omega arith) (omega arith)

stop-Hangs_example : ((after_end.loopers 0).place ≡ waiting) × (after_end.main ≢ finished)
stop-Hangs_example = stop-Hangs io 0 (refl, refl) run_ends (omega arith) end-Hangs here

Reach-progress_example :
    (CanStep cycles 1 after_end ⊎ ((after_end.main ≡ finished) ⊎ Stuck after_end))
    × (in_loop after_end.main ≡ true → CanStep cycles 1 after_end)
Reach-progress_example = Reach-progress cycles io (refl, refl) run_ends

-- The main thread comes first to the barrier.
abbrev stepped : Answer Milli
stepped = record { result = pos 0; get_time = milli (pos 4) }

abbrev after_step : System ℕ
after_step = record entered { io = record entered.io { time = time_after stepped }; main = syncing }

abbrev after_sync : System ℕ
after_sync = record after_step { io = arrive_at after_step.io; main = blocked; main_laps = 1 }

run_syncs : Reach cycles 1 (begun io) after_sync
unfolding begun time_after is_running ◌*ℤ◌ ◌/ℤ◌
run_syncs = later (later (later here (enter refl)) (advance stepped refl refl)) (sync refl)

barrier-releases_example :
    (0 ≤ 4 * 1)
    × CanStep cycles 1 after_sync
    × ((u : System ℕ) → Step cycles 1 after_sync u → (u.main ≡ choosing) ⊎ (u.main ≡ blocked))
barrier-releases_example = barrier-releases cycles io 0 (refl, refl) run_syncs (waits refl)
