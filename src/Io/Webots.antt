-- ===== src/Io/Webots.antt =====
-- `class Webots` of src/io/webots.hpp and src/io/webots.cc: the simulator as an IO. F stands for its
-- doubles too; W is the state that the updates of the devices change. What `webots::Robot` answers is an
-- argument. An updater gets the one member that the devices read, the time.
pub mod Updates
pub mod Examples
use robo_band.Base.{
  ℕ, zero, suc, ◌+◌, ◌==◌, Bool, true, false, Option, none, some, List, [], ◌∷◌, ◌++◌,
  if◌then◌else◌,
}
use robo_band.Base.Int.{ℤ, pos, negsuc, eqb_ℤ}
use robo_band.Base.Float.{Float, ◌*ᶠ◌}

-- `std::barrier`: how many threads a phase waits for, how many have arrived in it, and how many phases
-- are complete.
pub record Barrier : Type 0 where
  pub expected : ℕ
  pub arrived : ℕ
  pub phase : ℕ

abbrev pub new_barrier : ℕ → Barrier
new_barrier expected = record { expected = expected; arrived = 0; phase = 0 }

-- The first half of `arrive_and_wait`.
unfoldable pub arrive : Barrier → Barrier
arrive b = record b { arrived = suc b.arrived }

-- What the last arrival of a phase does.
unfoldable pub next_phase : Barrier → Barrier
next_phase b = record b { arrived = 0; phase = suc b.phase }

pub record Webots {κ} (W : Type κ) : Type κ where
  pub time : ℤ
  pub bind_runner_num : ℕ
  pub sync_point : Option Barrier
  pub updaters : List (ℤ → W → W)
  pub basic_time_step : ℤ

-- What `robot.step` returns, and `robot.getTime` after it, in seconds.
pub record Answer {ℓ} (F : Type ℓ) : Type ℓ where
  pub result : ℤ
  pub get_time : F

-- `(int)(robot.getTime() * 1000)`.
abbrev pub millis {ℓ} : {F : Type ℓ} ⦃f : Float F⦄ → F → ℤ
millis ⦃f⦄ get_time = f.to_int (get_time *ᶠ f.of_int (pos 1000))

-- The simulation has not ended: `time != -1`.
unfoldable pub is_running : ℤ → Bool
is_running time = elim (eqb_ℤ time (negsuc 0)) [ true ↦ false | false ↦ true ]

-- The new `time` in `step`.
unfoldable pub time_after {ℓ} : {F : Type ℓ} ⦃f : Float F⦄ → Answer F → ℤ
time_after answer = if eqb_ℤ answer.result (negsuc 0) then negsuc 0 else millis answer.get_time

module _ {κ} {W : Type κ} where
  unfoldable pub new_webots {ℓ} : {F : Type ℓ} ⦃f : Float F⦄ → F → F → Webots W
  new_webots ⦃f⦄ get_time get_basic_time_step = record {
    time = millis get_time;
    bind_runner_num = 0;
    sync_point = none;
    updaters = [];
    basic_time_step = f.to_int get_basic_time_step;
  }

  -- The destructor: what it deletes.
  unfoldable pub destroy : Webots W → Option Barrier
  destroy io = io.sync_point

  -- The parts of `step`.
  unfoldable pub make_barrier : Webots W → Webots W
  make_barrier io = elim io.sync_point [
    | none ↦ record io { sync_point = some (new_barrier (io.bind_runner_num + 1)) }
    | some _ ↦ io
  ]

  unfoldable pub run_updaters : ℤ → List (ℤ → W → W) → W → W
  run_updaters time [] w = w
  run_updaters time (update ∷ updaters) w = run_updaters time updaters (update time w)

  unfoldable pub arrive_at : Webots W → Webots W
  arrive_at io = elim io.sync_point [
    | none ↦ io
    | some b ↦ record io { sync_point = some (arrive b) }
  ]

  -- `step` up to where it waits at the barrier, which it does unless it returns -1.
  unfoldable pub step {ℓ} :
      {F : Type ℓ} ⦃f : Float F⦄ → Webots W → Answer F → W → (Webots W × W) × ℤ
  unfolding make_barrier run_updaters time_after arrive_at
  step io answer w =
      let io' = make_barrier io in
      let w' = run_updaters io'.time io'.updaters w in
      let time = time_after answer in
      let io'' : Webots W = record io' { time = time } in
      (((if is_running time then arrive_at io'' else io''), w'), time)

  -- The calls of `step` that the main thread makes, until one returns -1; after each, the other threads
  -- may change the barrier.
  unfoldable pub steps {ℓ} :
      {F : Type ℓ} ⦃f : Float F⦄ → List (Answer F × Barrier) → Webots W → W → Webots W × W
  steps [] io w = (io, w)
  steps ((answer, b) ∷ answers) io w =
      let ((io', w'), time) = step io answer w in
      let rest = steps answers (record io' { sync_point = some b }) w' in
      if is_running time then rest else (io', w')

-- The loops of `inertialGetRollPitchYaw` and `gyroGetValues`, over an array of n values.
abbrev pub copy {ℓ} : {F : Type ℓ} → ℕ → (ℕ → F) → (ℕ → F) → ℕ → F
copy zero source target i = target i
copy (suc n) source target i = if i == n then source n else copy n source target i

module _ {ℓ} {F : Type ℓ} where
  -- `time` is that of the object; the simulator gives the first array, the second is written.
  unfoldable pub inertial_get_roll_pitch_yaw : ℤ → (ℕ → F) → (ℕ → F) → ℕ → F
  inertial_get_roll_pitch_yaw time angle_tmp angle =
      if is_running time then copy 3 angle_tmp angle else angle

  unfoldable pub gyro_get_values : ℤ → (ℕ → F) → (ℕ → F) → ℕ → F
  gyro_get_values time speed_tmp speed = if is_running time then copy 3 speed_tmp speed else speed
