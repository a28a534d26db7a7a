-- ===== src/Robot/Webots/Invariant.antt =====
-- What holds in every state that the threads of a simulated robot reach: of the barrier, of how often
-- each thread has passed it, and of who has returned.
pub mod Moves
pub mod Main
pub mod Steps
use robo_band.Base.{
  ℕ, zero, suc, ◌+◌, ◌<◌, ◌≤◌, ◌≡◌, refl, Bool, true, false, some, none, arith, ap,
}
use robo_band.Base.Float.{Float}
use robo_band.Io.Webots.{Webots}
use robo_band.Robot.Webots.System.{
  Place, returned, Looper, MainPlace, choosing, stepping, syncing, blocked, stopping, joining,
  finished, System, begun,
}
use robo_band.Robot.Webots.Family.{wait, waiting_of, waiting_of-start}
use Moves.{arrived_of, phase_of, size_of, is_made}

abbrev pub in_loop : MainPlace → Bool
in_loop (stopping _) = false
in_loop (joining _) = false
in_loop finished = false
in_loop _ = true

-- In `step`, which has made a barrier.
abbrev pub in_step : MainPlace → Bool
in_step stepping = true
in_step syncing = true
in_step blocked = true
in_step _ = false

abbrev pub main_wait : MainPlace → ℕ
main_wait blocked = 1
main_wait _ = 0

-- How many runners have been joined, of n.
abbrev pub joined : ℕ → MainPlace → ℕ
joined n (stopping k) = k
joined n (joining k) = k
joined n finished = n
joined n _ = 0

pub record Inv {W : Type 0} (n : ℕ) (s : System W) : Type 0 where
  pub bound : s.io.bind_runner_num ≡ n
  pub size : size_of (suc n) s.io.sync_point ≡ suc n
  pub made : in_step s.main ≡ true → is_made s.io.sync_point ≡ true
  pub count : arrived_of s.io.sync_point ≡ main_wait s.main + waiting_of n s.loopers
  pub laps : (i : ℕ) → i < n → (s.loopers i).laps ≡ phase_of s.io.sync_point + wait (s.loopers i)
  pub main_laps : s.main_laps ≡ phase_of s.io.sync_point + main_wait s.main
  pub active : in_loop s.main ≡ true → (i : ℕ) → i < n → (s.loopers i).running ≡ true
  pub ended : (i : ℕ) → i < n → (s.loopers i).place ≡ returned → (s.loopers i).running ≡ false
  pub gone : (i : ℕ) → i < joined n s.main → (s.loopers i).place ≡ returned
  pub few : (i : ℕ) → s.main ≡ joining i → i < n
  pub most : joined n s.main ≤ n

module _ {W : Type 0} where
  -- n runners were bound to a simulator that has made no step.
  abbrev pub IsFresh : ℕ → Webots W → Type 0
  IsFresh n io = (io.bind_runner_num ≡ n) × (io.sync_point ≡ none)

  pub begun-Inv : (n : ℕ) (io : Webots W) → IsFresh n io → Inv n (begun io)
  unfolding begun
  begun-Inv n io (bound, fresh) = record {
    bound = bound;
    size = rw fresh;
    made = ground arith;
    count = omega (arith, ap arrived_of fresh, waiting_of-start n ((begun io).loopers 0) refl);
    laps = λ i lt. rw fresh;
    main_laps = rw fresh;
    active = λ loop i lt. refl;
    ended = ground arith;
    gone = λ i lt. absurd (omega arith);
    few = ground arith;
    most = omega arith;
  }
