-- ===== src/Io/Webots/Updates.antt =====
-- When the devices of a simulated robot are updated, and with which time.
use robo_band.Base.{
  ◌≡◌, refl, ◌∙◌, Bool, true, false, some, List, [], ◌∷◌, inl, inr, Bool-cases, if◌then◌else◌,
  arith,
}
use robo_band.Base.Int.{ℤ}
use robo_band.Base.Float.{Float}
use robo_band.Io.Webots.{
  Barrier, Webots, Answer, is_running, make_barrier, run_updaters, time_after, arrive_at, step,
  steps,
}

-- From a time on: that, and then the time that each step gave but the last one.
abbrev pub times_seen {ℓ} : {F : Type ℓ} ⦃f : Float F⦄ → List (Answer F × Barrier) → ℤ → List ℤ
times_seen [] time = []
times_seen ((answer, b) ∷ answers) time =
    let rest = times_seen answers (time_after answer) in
    time ∷ (if is_running (time_after answer) then rest else [])

module _ {W : Type 0} where
  -- The updates, in order, at one time after another.
  abbrev pub update_at : List ℤ → List (ℤ → W → W) → W → W
  update_at [] updaters w = w
  update_at (time ∷ times) updaters w = update_at times updaters (run_updaters time updaters w)

  make_barrier-kept :
      (io : Webots W)
      → ((make_barrier io).time ≡ io.time) × ((make_barrier io).updaters ≡ io.updaters)
  unfolding make_barrier
  make_barrier-kept io = ground arith

  arrive_at-kept :
      (io : Webots W) → ((arrive_at io).time ≡ io.time) × ((arrive_at io).updaters ≡ io.updaters)
  unfolding arrive_at
  arrive_at-kept io = ground arith

  if-arrive_at :
      (b : Bool) (io : Webots W)
      → let io' = if b then arrive_at io else io in
        (io'.time ≡ io.time) × (io'.updaters ≡ io.updaters)
  if-arrive_at true io = arrive_at-kept io
  if-arrive_at false io = (refl, refl)

  step-kept :
      {F : Type 0} ⦃f : Float F⦄ (io : Webots W) (answer : Answer F) (w : W)
      → let s = step io answer w in
        (s.1 ≡ time_after answer)
        × (s.0.0.time ≡ time_after answer)
        × (s.0.0.updaters ≡ io.updaters)
        × (s.0.1 ≡ run_updaters io.time io.updaters w)
  unfolding step
  step-kept io answer w =
      let (time_kept, updaters_kept) = make_barrier-kept io in
      let io' : Webots W = record (make_barrier io) { time = time_after answer } in
      let (time_new, updaters_new) = if-arrive_at (is_running (time_after answer)) io' in
      (refl, time_new, updaters_new ∙ updaters_kept, rw (time_kept, updaters_kept))

  -- While the main thread calls `step`, until one call returns -1, every device is updated once in
  -- each call, in the order of construction, with the time that the call before it set, and in the
  -- first with that of the start: never with the time of the step that is being made.
  pub steps-times :
      {F : Type 0} ⦃f : Float F⦄ (answers : List (Answer F × Barrier)) (io : Webots W) (w : W)
      → (steps answers io w).1 ≡ update_at (times_seen answers io.time) io.updaters w
  unfolding steps
  steps-times [] io w = refl
  steps-times ((answer, b) ∷ answers) io w =
      let (returned, time, updaters, updated) = step-kept io answer w in
      let io' : Webots W = record (step io answer w).0.0 { sync_point = some b } in
      let rest = steps-times answers io' (step io answer w).0.1 in
      elim (Bool-cases (is_running (time_after answer))) [
        | inl running ↦ rw (returned, running) (rest ∙ rw (time, updaters, updated))
        | inr ended ↦ rw (returned, ended) updated
      ]
