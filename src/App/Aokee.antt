-- ===== src/App/Aokee.antt =====
-- `Aokee::devInit` of app/Aokee/Aokee.hpp and app/Aokee/Aokee.cc: the legs are retracted to their end
-- stops, where the angles of the joints are set. What the motors report is an argument; what the
-- function commands is a list of events.
pub mod Retract
pub mod Binding
pub mod Cycle
pub mod Examples
use robo_band.Base.{ℕ, zero, suc, Bool, true, false, List, [], ◌∷◌, ◌++◌, if◌then◌else◌, ◌&&◌, not}
use robo_band.Base.Int.{ℤ, pos}
use robo_band.Base.Float.{Float, ◌+ᶠ◌, ◌-ᶠ◌, ◌*ᶠ◌, zero_float}
use robo_band.Util.Math.{abs}
use robo_band.Util.Siso.{Out, feed}
use robo_band.Util.Pid.{Pid, pid_siso}
use robo_band.Util.Time.{ns, ms}

-- The members that `devInit` uses. `pid_retract` has one controller for each joint motor.
pub record Aokee {ℓ} (F : Type ℓ) : Type ℓ where
  pub pid_retract : List (Pid F)
  pub retract_speed : F
  pub motor_stop_speed : F
  pub retract_ctrl_cycle_ms : F
  pub retract_time_min_ms : F
  pub joint_limit_angle : F

-- The motors of the chassis: joints 0 to 3 in the order of `joint_motor`, and the wheels.
pub data Name : Type 0 where
  joint wheel : ℕ → Name

pub data Event {ℓ} (F : Type ℓ) : Type ℓ where
  set_torque : Name → F → Event F
  set_angle : Name → F → Event F
  sleep : ℤ → Event F

-- The speeds that the joints report when they are commanded, and when they are tested.
pub record Speeds {ℓ} (F : Type ℓ) : Type ℓ where
  pub commanded : ℕ → F
  pub tested : ℕ → F

-- `devInit` returned, or it still loops when the reports end; with what it commanded.
pub data Outcome {ℓ} (F : Type ℓ) : Type ℓ where
  retracting : List (Event F) → Outcome F
  done : List (Event F) → Outcome F

-- Put events before those of an outcome.
abbrev pub after {ℓ} : {F : Type ℓ} → List (Event F) → Outcome F → Outcome F
after events (retracting rest) = retracting (events ++ rest)
after events (done rest) = done (events ++ rest)

module _ {ℓ} {F : Type ℓ} ⦃f : Float F⦄ (a : Aokee F) where
  -- The `for` over the joints that commands them, from a place on.
  unfoldable pub retract : ℕ → List (Pid F) → (ℕ → F) → List (Event F)
  retract i [] speed = []
  retract i (pid ∷ pids) speed =
      set_torque (joint i) (feed (a.retract_speed -ᶠ speed i) pid).o ∷ retract (suc i) pids speed

  -- The `for` that clears `stopped`, over the joints below n.
  unfoldable pub all_stopped : ℕ → (ℕ → F) → Bool
  all_stopped zero speed = true
  all_stopped (suc n) speed = all_stopped n speed && not (f.lt a.motor_stop_speed (abs (speed n)))

  -- The `for` that sets the angles, over the joints from i on.
  unfoldable pub set_angles : ℕ → ℕ → List (Event F)
  set_angles i zero = []
  set_angles i (suc n) = set_angle (joint i) a.joint_limit_angle ∷ set_angles (suc i) n

  -- The commands after the loop.
  abbrev pub release : List (Event F)
  release =
      set_torque (wheel 0) zero_float
      ∷ set_torque (joint 0) zero_float
      ∷ set_torque (joint 1) zero_float
      ∷ set_torque (wheel 1) zero_float
      ∷ set_torque (joint 2) zero_float
      ∷ set_torque (joint 3) zero_float
      ∷ []

  -- The commands and the pause at the start of a round.
  abbrev pub command : (ℕ → F) → List (Event F)
  command speed =
      retract 0 a.pid_retract speed
      ++ (sleep (f.to_int (a.retract_ctrl_cycle_ms *ᶠ f.of_int (ms ns))) ∷ [])

  -- Whether the round at time t is the last.
  abbrev pub ends : ℤ → Speeds F → Bool
  ends t speeds = f.lt a.retract_time_min_ms (f.of_int t) && all_stopped 4 speeds.tested

  -- `t += RETRACT_CTRL_CYCLE_MS`, where `t` is an `int`.
  abbrev pub next_time : ℤ → ℤ
  next_time t = f.to_int (f.of_int t +ᶠ a.retract_ctrl_cycle_ms)

  -- The `while` and what follows it, over the reports of its rounds.
  unfoldable pub loop : ℤ → List (Speeds F) → Outcome F
  unfolding retract all_stopped set_angles
  loop t [] = retracting []
  loop t (speeds ∷ rest) =
      let later = loop (next_time t) rest in
      after (command speeds.commanded)
        (if ends t speeds then done (set_angles 0 4 ++ release) else later)

  unfoldable pub dev_init : List (Speeds F) → Outcome F
  unfolding loop
  dev_init reports = loop (pos 0) reports
