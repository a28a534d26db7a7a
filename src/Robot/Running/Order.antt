-- ===== src/Robot/Running/Order.antt =====
-- Which threads run beside each other.
use mathlib.Core.Path.{subst}
use robo_band.Base.{ℕ, ◌<◌, ◌≡◌, ◌≢◌, refl, ap, Bool, true, false, arith}
use robo_band.Robot.Running.{
  returned, Worker, MainPlace, starting_io, initialising, starting_ctrl, looping, stopping_ctrl,
  joining_ctrl, stopping_io, joining_io, finished, Team, bound, Reach,
}
use robo_band.Robot.Running.Phases.{
  Phase, unborn, alive, leaving, over, io_phase, ctrl_phase, busy, Fits, bound-Inv, ios-at,
  ctrls-at, Reach-Inv,
}

-- A thread that is in its loop was started and not joined.
abbrev present : Phase → Bool
present alive = true
present leaving = true
present _ = false

busy-present :
    (phase : Phase) (w : Worker) → busy w.place ≡ true → Fits phase w → present phase ≡ true
busy-present unborn w in_loop fits = absurd (ground arith)
busy-present alive w in_loop fits = refl
busy-present leaving w in_loop fits = refl
busy-present over w in_loop fits = absurd (ground arith)

-- While a runner is there, all IOs run.
ctrl-io :
    (main : MainPlace) (i j : ℕ) → present (ctrl_phase main i) ≡ true → io_phase main j ≡ alive
ctrl-io (starting_io k) i j h = absurd (ground arith)
ctrl-io initialising i j h = refl
ctrl-io (starting_ctrl k) i j h = refl
ctrl-io looping i j h = refl
ctrl-io (stopping_ctrl k) i j h = refl
ctrl-io (joining_ctrl k) i j h = refl
ctrl-io (stopping_io k) i j h = absurd (ground arith)
ctrl-io (joining_io k) i j h = absurd (ground arith)
ctrl-io finished i j h = absurd (ground arith)

ctrl-not_initialising :
    (main : MainPlace) (i : ℕ) → present (ctrl_phase main i) ≡ true → main ≢ initialising
ctrl-not_initialising main i h e =
    let h' = ap (λ p. present (ctrl_phase p i)) e in absurd (ground arith)

-- In every interleaving of a robot whose threads were never started: while a runner is in its loop, the
-- main thread is not in `devInit`, and every IO is in its loop and has not been told to stop; and when
-- `run` is over, the threads of all IOs and runners have returned.
pub run-order :
    {m n : ℕ} {s : Team}
    → Reach m n bound s
    → ((i : ℕ)
        → i < n
        → busy (s.ctrls i).place ≡ true
        → (s.main ≢ initialising)
          × ((j : ℕ) → j < m → ((s.ios j).running ≡ true) × (busy (s.ios j).place ≡ true)))
      × (s.main ≡ finished
          → ((j : ℕ) → j < m → (s.ios j).place ≡ returned)
            × ((i : ℕ) → i < n → (s.ctrls i).place ≡ returned))
run-order {m} {n} {s} reach =
    let inv = Reach-Inv reach (bound-Inv m n) in
    (
      λ i lt in_loop.
          let there = busy-present (ctrl_phase s.main i) (s.ctrls i) in_loop (inv.ctrls i lt) in
          (
            ctrl-not_initialising s.main i there,
            λ j lt'. subst (λ k. Fits k (s.ios j)) (ctrl-io s.main i j there) (inv.ios j lt'),
          ),
      λ at. (ios-at at inv, ctrls-at at inv),
    )
