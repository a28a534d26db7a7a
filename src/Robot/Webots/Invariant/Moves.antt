-- ===== src/Robot/Webots/Invariant/Moves.antt =====
-- What one step of a runner keeps, and what it adds to the barrier.
use robo_band.Base.{ℕ, suc, ◌+◌, ◌≡◌, ◌≢◌, refl, ap, Bool, true, false, Option, none, some, arith}
use robo_band.Base.Float.{Float}
use robo_band.Io.Webots.{Barrier, Webots, arrive_at}
use robo_band.Io.Webots as Io
use robo_band.Robot.Webots.System.{
  Place, waiting, returned, Looper, Move, begin, go_on, return, pass, arrive, work, skip, worked,
}
use robo_band.Robot.Webots.Family.{weight, wait}

abbrev pub arrived_of : Option Barrier → ℕ
arrived_of none = 0
arrived_of (some b) = b.arrived

abbrev pub phase_of : Option Barrier → ℕ
phase_of none = 0
phase_of (some b) = b.phase

-- The size of a barrier; n where there is none.
abbrev pub size_of : ℕ → Option Barrier → ℕ
size_of n none = n
size_of n (some b) = b.expected

abbrev pub is_made : Option Barrier → Bool
is_made none = false
is_made (some b) = true

-- At a place in the loop at which a runner does not wait.
abbrev inside : Place → Bool
inside waiting = false
inside returned = false
inside _ = true

module _ {W : Type 0} where
  -- The simulator's object before and after, but for what is counted.
  pub record Same (io io' : Webots W) : Type 0 where
    pub bound : io'.bind_runner_num ≡ io.bind_runner_num
    pub size : (n : ℕ) → size_of n io'.sync_point ≡ size_of n io.sync_point
    pub made : is_made io'.sync_point ≡ is_made io.sync_point
    pub phase : phase_of io'.sync_point ≡ phase_of io.sync_point

  pub Same-refl : (io : Webots W) → Same io io
  Same-refl io = record { bound = refl; size = λ n. refl; made = refl; phase = refl }

  pub arrive_at-Same : (io : Webots W) → Same io (arrive_at io)
  unfolding arrive_at Io.arrive
  arrive_at-Same io = record {
    bound = ground arith;
    size = ground arith;
    made = ground arith;
    phase = ground arith;
  }

  pub arrive_at-arrived :
      (io : Webots W)
      → is_made io.sync_point ≡ true
      → arrived_of (arrive_at io).sync_point ≡ suc (arrived_of io.sync_point)
  unfolding arrive_at Io.arrive
  arrive_at-arrived io made = ground arith

  pub record Moved (io : Webots W) (r : Looper) (io' : Webots W) (r' : Looper) : Type 0 where
    pub same : Same io io'
    pub arrived : arrived_of io'.sync_point + wait r ≡ arrived_of io.sync_point + wait r'
    pub laps : r'.laps + wait r ≡ r.laps + wait r'
    pub running : r'.running ≡ r.running
    pub going : r.place ≢ returned
    pub ended : r'.place ≡ returned → r.running ≡ false
    pub woken : r.place ≢ waiting

  -- A runner that goes on in the loop, without the barrier.
  step_inside :
      (io : Webots W) (r r' : Looper) {p : Place}
      → r.place ≡ p
      → inside p ≡ true
      → inside r'.place ≡ true
      → r'.laps ≡ r.laps
      → r'.running ≡ r.running
      → Moved io r io r'
  step_inside io r r' at from to laps running = record {
    same = Same-refl io;
    arrived = ground arith;
    laps = ground arith;
    running = running;
    going = ground arith;
    ended = ground arith;
    woken = ground arith;
  }

module _ {F : Type 0} ⦃f : Float F⦄ {W : Type 0} where
  pub Move-Moved :
      {cycle_ms : F} {io io' : Webots W} {r r' : Looper}
      → Move cycle_ms io r io' r'
      → Moved io r io' r'
  Move-Moved {io} {r} (arrive b at sp) =
      let made : is_made io.sync_point ≡ true = ap is_made sp in
      record {
        same = arrive_at-Same io;
        arrived = omega (arith, arrive_at-arrived io made, ap weight at);
        laps = omega (arith, ap weight at);
        running = refl;
        going = ground arith;
        ended = ground arith;
        woken = ground arith;
      }
  Move-Moved {io} {r} (return at halt) = record {
    same = Same-refl io;
    arrived = omega (arith, ap weight at);
    laps = omega (arith, ap weight at);
    running = refl;
    going = ground arith;
    ended = λ _. halt;
    woken = ground arith;
  }
  Move-Moved {io} {r} (begin at) = step_inside io r _ at refl refl refl refl
  Move-Moved {io} {r} (go_on at _) = step_inside io r _ at refl refl refl refl
  Move-Moved {io} {r} (pass at _) = step_inside io r _ at refl refl refl refl
  Move-Moved {io} {r} (work at _) = step_inside io r _ at refl refl refl refl
  Move-Moved {io} {r} (skip at _) = step_inside io r _ at refl refl refl refl
  Move-Moved {io} {r} (worked at) = step_inside io r _ at refl refl refl refl
