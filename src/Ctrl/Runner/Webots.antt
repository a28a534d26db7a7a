-- ===== src/Ctrl/Runner/Webots.antt =====
-- `class Runner` of src/ctrl/runner.hpp and src/ctrl/runner.cc, as it is built with USE_WEBOTS: a thread
-- that runs its task in step with the simulator. Log lines are left out. The waiting at the barrier is
-- in Robot/Webots/System.antt.
pub mod Rounds
pub mod Examples
use robo_band.Base.{ℕ, ◌+◌, Bool, true, false, Option, none, some, List, [], ◌∷◌}
use robo_band.Base.Int.{ℤ, leb_ℤ}
use robo_band.Base.Float.{Float, ◌+ᶠ◌}
use robo_band.Io.Lifecycle.{null, joinable, Effect, start_thread}
use robo_band.Io.Webots.{Webots}
use robo_band.Ctrl.Runner.{Runner, new_runner}

-- The pointer `webots_io` is null or the address of an object.
pub record WebotsRunner {ℓ} (F : Type ℓ) : Type ℓ where
  pub runner : Runner F
  pub webots_io : Option ℕ

module _ {ℓ} {F : Type ℓ} where
  -- The constructor leaves `webots_io` as the memory is.
  unfoldable pub new_webots_runner : F → Option ℕ → WebotsRunner F
  new_webots_runner cycle_ms raw = record { runner = new_runner cycle_ms; webots_io = raw }

  unfoldable pub run : WebotsRunner F → WebotsRunner F × List Effect
  run r = elim r.webots_io [
    | none ↦ (r, [])
    | some _ ↦ elim r.runner.thread [
      | null ↦ (
        record r { runner = record r.runner { running = true; thread = joinable } },
        start_thread ∷ [],
      )
      | _ ↦ (r, [])
    ]
  ]

  -- `bind` to an object that is at an address.
  unfoldable pub bind {κ} : {W : Type κ} → WebotsRunner F → ℕ → Webots W → WebotsRunner F × Webots W
  bind r address io = (
    record r { webots_io = some address },
    record io { bind_runner_num = io.bind_runner_num + 1 },
  )

module _ {ℓ} {F : Type ℓ} ⦃f : Float F⦄ (cycle_ms : F) where
  -- `time_set += cycle_ms`, an `int` and a float.
  unfoldable pub add_cycle : ℤ → ℤ
  add_cycle time_set = f.to_int (f.of_int time_set +ᶠ cycle_ms)

  -- The loop of `thread_func` from a `time_set` on, given the time that the simulator shows in each
  -- round while `running` is true: whether the round runs the task.
  unfoldable pub thread_func : List ℤ → ℤ → List Bool
  thread_func [] time_set = []
  thread_func (time ∷ times) time_set =
      leb_ℤ time (add_cycle time_set) ∷ thread_func times (add_cycle time_set)
