-- ===== src/Ctrl/Runner.antt =====
-- `class Runner` of src/ctrl/runner.hpp and src/ctrl/runner.cc, as it is built without USE_WEBOTS: the
-- thread that runs a task periodically. The times that `clock_gettime` gives are arguments; the task, which
-- runs once in each round, and the call of `setThisThreadRealTime` at the start leave no trace. Log lines
-- are left out, but what the one of an overrun reports is a result.
pub mod Deadlines
pub mod Webots
pub mod Examples
use robo_band.Base.{Bool, true, false, Option, none, some, List, [], ◌∷◌, if◌then◌else◌}
use robo_band.Base.Int.{ℤ, pos, ◌-ℤ◌, leb_ℤ}
use robo_band.Base.Float.{Float, ◌-ᶠ◌, ◌*ᶠ◌}
use robo_band.Io.Lifecycle.{Thread, null, joinable, joined, Effect, start_thread, join_thread}
use robo_band.Util.Time.{Timespec, ns, ms, inc_time, get_time_duration}

pub record Runner {ℓ} (F : Type ℓ) : Type ℓ where
  pub cycle_ms : F
  pub running : Bool
  pub thread : Thread

-- What the clock gives before and after the task of a round.
pub record Clocks : Type 0 where
  pub t_start : Timespec
  pub t_now : Timespec

-- What the log line of an overrun reports.
pub record Overrun : Type 0 where
  pub t_task : ℤ
  pub t_total : ℤ

module _ {ℓ} {F : Type ℓ} where
  unfoldable pub new_runner : F → Runner F
  new_runner cycle_ms = record { cycle_ms = cycle_ms; running = false; thread = null }

  unfoldable pub run : Runner F → Runner F × List Effect
  run r = elim r.thread [
    | null ↦ (record r { running = true; thread = joinable }, start_thread ∷ [])
    | _ ↦ (r, [])
  ]

  -- `none` is the `std::system_error` that `join` throws on a thread that was joined before.
  unfoldable pub stop : Runner F → Option (Runner F × List Effect)
  stop r = elim r.thread [
    | null ↦ some (record r { running = false }, [])
    | joinable ↦ some (record r { running = false; thread = joined }, join_thread ∷ [])
    | joined ↦ none
  ]

  -- The destructor.
  unfoldable pub destroy : Runner F → List Effect
  destroy r = elim r.thread [ joinable ↦ join_thread ∷ [] | _ ↦ [] ]

module _ {ℓ} {F : Type ℓ} ⦃f : Float F⦄ (cycle_ms : F) where
  -- `cycle_ms * util::Ms<util::Ns>`, as a float and as the `long` that `incTime` gets.
  abbrev pub cycle : F
  cycle = cycle_ms *ᶠ f.of_int (ms ns)

  abbrev pub cycle_ns : ℤ
  cycle_ns = f.to_int cycle

  -- `t_total`, which the source computes in floats.
  abbrev pub total_of : ℤ → ℤ
  total_of t_remain = f.to_int (cycle -ᶠ f.of_int t_remain)

  abbrev pub remain : Timespec → Clocks → ℤ
  remain t_set c = get_time_duration c.t_now (inc_time t_set cycle_ns)

  -- The body of the loop in `thread_func`: the time `t_set` that it sleeps until, and an overrun.
  unfoldable pub round : Timespec → Clocks → Timespec × Option Overrun
  round t_set c =
      let next = inc_time t_set cycle_ns in
      let t_remain = get_time_duration c.t_now next in
      if leb_ℤ t_remain (pos 0)
      then (let t_total = total_of t_remain in
          let t_task = get_time_duration c.t_start c.t_now in
          (inc_time next t_total, some (record { t_task = t_task; t_total = t_total })))
      else (next, none)

  -- The times that the loop sleeps until, over the clocks of its rounds while `running` is true.
  unfoldable pub thread_func : Timespec → List Clocks → List Timespec
  unfolding round
  thread_func t_set [] = []
  thread_func t_set (c ∷ cs) = let t_set' = (round t_set c).0 in t_set' ∷ thread_func t_set' cs
