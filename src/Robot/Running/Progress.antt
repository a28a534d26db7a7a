-- ===== src/Robot/Running/Progress.antt =====
-- No deadlock.
use mathlib.Core.Path.{subst}
use robo_band.Base.{ℕ, ◌<◌, ◌≤◌, ◌≡◌, ◌≢◌, refl, ap, ◌∙◌, arith, ◌⊎◌, inl, inr}
use robo_band.Robot.Running.{
  Place, absent, testing, working, blocked, returned, Worker, MainPlace, starting_io, initialising,
  starting_ctrl, looping, stopping_ctrl, joining_ctrl, stopping_io, joining_io, finished, Team,
  bound, Move, leave, worked, Step, io_moves, ctrl_moves, start_io, ios_started, initialised,
  start_ctrl, ctrls_started, sleep, quit, stop_ctrl, join_ctrl, ctrls_stopped, stop_io, join_io,
  finish, Reach, here, later,
}
use robo_band.Robot.Running.Phases.{
  leaving, io_phase, ctrl_phase, Fits, Inv, bound-Inv, ios-at, ctrls-at, Reach-Inv,
}

pub CanStep : ℕ → ℕ → Team → Type 0
CanStep m n s = (t : Team) × Step m n s t

-- The main thread waits in the `join` of a thread that never leaves the body of its loop.
pub data Stuck (s : Team) : Type 0 where
  on_ctrl : (i : ℕ) → s.main ≡ joining_ctrl i → (s.ctrls i).place ≡ blocked → Stuck s
  on_io : (i : ℕ) → s.main ≡ joining_io i → (s.ios i).place ≡ blocked → Stuck s

-- The main thread's index is within the vector.
abbrev pub InRange : ℕ → ℕ → MainPlace → Type 0
InRange m n (starting_io i) = i ≤ m
InRange m n (starting_ctrl i) = i ≤ n
InRange m n (stopping_ctrl i) = i ≤ n
InRange m n (joining_ctrl i) = i < n
InRange m n (stopping_io i) = i ≤ m
InRange m n (joining_io i) = i < m
InRange m n _ = Unit

module _ {m n : ℕ} where
  pub Step-InRange : {s t : Team} → Step m n s t → InRange m n s.main → InRange m n t.main
  Step-InRange (io_moves i lt move) h = h
  Step-InRange (ctrl_moves i lt move) h = h
  Step-InRange (start_io i at lt) h = omega (arith, lt)
  Step-InRange (ios_started at) h = tt
  Step-InRange (initialised at) h = omega arith
  Step-InRange (start_ctrl i at lt) h = omega (arith, lt)
  Step-InRange (ctrls_started at) h = tt
  Step-InRange (sleep at) h = h
  Step-InRange (quit at) h = omega arith
  Step-InRange (stop_ctrl i at lt) h = lt
  Step-InRange (join_ctrl i at done) h = subst (InRange m n) at h
  Step-InRange (ctrls_stopped at) h = omega arith
  Step-InRange (stop_io i at lt) h = lt
  Step-InRange (join_io i at done) h = subst (InRange m n) at h
  Step-InRange (finish at) h = tt

  pub Reach-InRange : {s t : Team} → Reach m n s t → InRange m n s.main → InRange m n t.main
  Reach-InRange here h = h
  Reach-InRange (later run step) h = Step-InRange step (Reach-InRange run h)

-- The thread that is joined has returned, or never leaves its body, or can come nearer to its return.
pub told-moves :
    (w : Worker)
    → Fits leaving w
    → (w.place ≡ returned)
      ⊎ (w.place ≡ blocked)
      ⊎ ((w' : Worker) × Move w w' × (w'.place ≢ blocked))
told-moves w (off, there) = go w.place refl
  where
    go :
        (place : Place)
        → w.place ≡ place
        → (w.place ≡ returned)
          ⊎ (w.place ≡ blocked)
          ⊎ ((w' : Worker) × Move w w' × (w'.place ≢ blocked))
    go absent at = absurd (there at)
    go testing at = inr (inr (_, leave at off, λ e. ground arith))
    go working at = inr (inr (_, worked at, λ e. ground arith))
    go blocked at = inr (inl at)
    go returned at = inl at

le-cases : (i m : ℕ) → i ≤ m → (i < m) ⊎ (i ≡ m)
le-cases i m h = ground arith

leaving-io : (i : ℕ) → io_phase (joining_io i) i ≡ leaving
leaving-io i = ground arith

leaving-ctrl : (i : ℕ) → ctrl_phase (joining_ctrl i) i ≡ leaving
leaving-ctrl i = ground arith

module _ {m n : ℕ} where
  -- The thread that the main thread joins was told to stop.
  pub told-io :
      {s : Team} (i : ℕ)
      → Inv m n s
      → InRange m n s.main
      → s.main ≡ joining_io i
      → Fits leaving (s.ios i)
  told-io {s} i inv range at =
      subst (λ k. Fits k (s.ios i)) (leaving-io i) (ios-at at inv i (subst (InRange m n) at range))

  pub told-ctrl :
      {s : Team} (i : ℕ)
      → Inv m n s
      → InRange m n s.main
      → s.main ≡ joining_ctrl i
      → Fits leaving (s.ctrls i)
  told-ctrl {s} i inv range at =
      subst (λ k. Fits k (s.ctrls i)) (leaving-ctrl i)
        (ctrls-at at inv i (subst (InRange m n) at range))

  main-goes :
      {s : Team} (main : MainPlace)
      → s.main ≡ main
      → Inv m n s
      → InRange m n s.main
      → CanStep m n s ⊎ (s.main ≡ finished) ⊎ Stuck s
  unfolding CanStep
  main-goes (starting_io i) at inv range = elim (le-cases i m (subst (InRange m n) at range)) [
    | inl lt ↦ inl (_, start_io i at lt)
    | inr e ↦ inl (_, ios_started (at ∙ ap starting_io e))
  ]
  main-goes initialising at inv range = inl (_, initialised at)
  main-goes (starting_ctrl i) at inv range = elim (le-cases i n (subst (InRange m n) at range)) [
    | inl lt ↦ inl (_, start_ctrl i at lt)
    | inr e ↦ inl (_, ctrls_started (at ∙ ap starting_ctrl e))
  ]
  main-goes looping at inv range = inl (_, quit at)
  main-goes (stopping_ctrl i) at inv range = elim (le-cases i n (subst (InRange m n) at range)) [
    | inl lt ↦ inl (_, stop_ctrl i at lt)
    | inr e ↦ inl (_, ctrls_stopped (at ∙ ap stopping_ctrl e))
  ]
  main-goes {s} (joining_ctrl i) at inv range =
      elim (told-moves (s.ctrls i) (told-ctrl i inv range at)) [
        | inl done ↦ inl (_, join_ctrl i at done)
        | inr (inl stays) ↦ inr (inr (on_ctrl i at stays))
        | inr (inr (w, move, _)) ↦ inl (_, ctrl_moves i (subst (InRange m n) at range) move)
      ]
  main-goes (stopping_io i) at inv range = elim (le-cases i m (subst (InRange m n) at range)) [
    | inl lt ↦ inl (_, stop_io i at lt)
    | inr e ↦ inl (_, finish (at ∙ ap stopping_io e))
  ]
  main-goes {s} (joining_io i) at inv range = elim (told-moves (s.ios i) (told-io i inv range at)) [
    | inl done ↦ inl (_, join_io i at done)
    | inr (inl stays) ↦ inr (inr (on_io i at stays))
    | inr (inr (w, move, _)) ↦ inl (_, io_moves i (subst (InRange m n) at range) move)
  ]
  main-goes finished at inv range = inr (inl at)

  -- In every interleaving of a robot whose threads were never started, some thread has a next step,
  -- until `run` is over, or until the main thread joins a thread that never leaves its body.
  pub run-progress : {s : Team} → Reach m n bound s → CanStep m n s ⊎ (s.main ≡ finished) ⊎ Stuck s
  unfolding bound
  run-progress {s} reach =
      main-goes s.main refl (Reach-Inv reach (bound-Inv m n)) (Reach-InRange reach (omega arith))
