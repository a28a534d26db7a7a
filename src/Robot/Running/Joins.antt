-- ===== src/Robot/Running/Joins.antt =====
-- A `stop` does not wait long.
use robo_band.Base.{
  ℕ, suc, ◌+◌, ◌≤◌, ◌≡◌, ◌≢◌, refl, ap, false, arith, ◌==◌, ◌⊎◌, inl, inr, Bool-cases, ==_iff,
}
use robo_band.Robot.Slots.{set_at}
use robo_band.Robot.Running.{
  Place, testing, working, blocked, returned, Worker, MainPlace, joining_ctrl, joining_io, Team,
  bound, Move, go_on, leave, worked, blocks, Step, io_moves, ctrl_moves, start_io, ios_started,
  initialised, start_ctrl, ctrls_started, sleep, quit, stop_ctrl, join_ctrl, ctrls_stopped, stop_io,
  join_io, finish, Reach,
}
use robo_band.Robot.Running.Phases.{leaving, Fits, Inv, bound-Inv, Step-Inv, Reach-Inv}
use robo_band.Robot.Running.Progress.{
  InRange, Step-InRange, Reach-InRange, told-io, told-ctrl, told-moves,
}

-- The main thread waits in `join` of an object.
pub data Joins : MainPlace → (Team → Worker) → Type 0 where
  of_ctrl : (i : ℕ) → Joins (joining_ctrl i) (λ s. s.ctrls i)
  of_io : (i : ℕ) → Joins (joining_io i) (λ s. s.ios i)

-- States that are passed in this `join`, where the thread that is joined makes k steps and the others any.
pub data Waits (m n : ℕ) (main : MainPlace) (pick : Team → Worker) (s : Team)
    : ℕ → Team → Type 0 where
  waits : s.main ≡ main → Waits m n main pick s 0 s
  others :
      {k : ℕ} {t u : Team}
      → Waits m n main pick s k t
      → Step m n t u
      → u.main ≡ main
      → pick u ≡ pick t
      → Waits m n main pick s k u
  moves :
      {k : ℕ} {t u : Team}
      → Waits m n main pick s k t
      → Step m n t u
      → u.main ≡ main
      → Move (pick t) (pick u)
      → Waits m n main pick s (suc k) u

-- How many steps it makes at most.
abbrev to_return : Place → ℕ
to_return working = 2
to_return testing = 1
to_return _ = 0

to_return-le : (place : Place) → to_return place ≤ 2
to_return-le place = ground arith

Move-nearer :
    {w w' : Worker} → Move w w' → w.running ≡ false → suc (to_return w'.place) ≤ to_return w.place
Move-nearer (go_on at on) off = absurd (ground arith)
Move-nearer (leave at _) off = omega (arith, ap to_return at)
Move-nearer (worked at) off = omega (arith, ap to_return at)
Move-nearer (blocks at) off = omega (arith, ap to_return at)

-- A change of one place, as it is seen at another.
set_at-seen :
    (g : ℕ → Worker) (i j : ℕ) (w : Worker)
    → Move (g j) w
    → (set_at g j w i ≡ g i) ⊎ Move (g i) (set_at g j w i)
set_at-seen g i j w move = elim (Bool-cases (i == j)) [
  | inl same ↦ inr (rw (same, (==_iff i j).0 same) move)
  | inr other ↦ inl (rw other refl)
]

abbrev joining_index : MainPlace → ℕ
joining_index (joining_ctrl i) = i
joining_index (joining_io i) = i
joining_index _ = 0

module _ {m n : ℕ} where
  Joins-told :
      {main : MainPlace} {pick : Team → Worker} {s : Team}
      → Joins main pick
      → Inv m n s
      → InRange m n s.main
      → s.main ≡ main
      → Fits leaving (pick s)
  Joins-told (of_ctrl i) inv range at = told-ctrl i inv range at
  Joins-told (of_io i) inv range at = told-io i inv range at

  Waits-left :
      {main : MainPlace} {pick : Team → Worker} {s t : Team} {k : ℕ}
      → Joins main pick
      → Waits m n main pick s k t
      → Inv m n s
      → InRange m n s.main
      → Inv m n t
        × InRange m n t.main
        × (t.main ≡ main)
        × (to_return (pick t).place + k ≤ to_return (pick s).place)
  Waits-left joins (waits at) inv range = (inv, range, at, omega arith)
  Waits-left joins (others run step at same) inv range =
      let (inv_t, range_t, _, left) = Waits-left joins run inv range in
      (
        Step-Inv step inv_t,
        Step-InRange step range_t,
        at,
        omega (arith, left, ap (λ w. to_return w.place) same),
      )
  Waits-left joins (moves run step at move) inv range =
      let (inv_t, range_t, at_t, left) = Waits-left joins run inv range in
      (
        Step-Inv step inv_t,
        Step-InRange step range_t,
        at,
        omega (arith, left, Move-nearer move (Joins-told joins inv_t range_t at_t).0),
      )

  -- A step in which the main thread stays in the `join` is one of the thread that is joined, or leaves it
  -- alone.
  joining-step :
      {main : MainPlace} {pick : Team → Worker} {t u : Team}
      → Joins main pick
      → t.main ≡ main
      → Step m n t u
      → u.main ≡ main
      → (pick u ≡ pick t) ⊎ Move (pick t) (pick u)
  joining-step {t = t} (of_ctrl i) at (io_moves j {w} lt move) at' = inl refl
  joining-step {t = t} (of_ctrl i) at (ctrl_moves j {w} lt move) at' =
      set_at-seen t.ctrls i j w move
  joining-step {t = t} (of_ctrl i) at (start_io j is lt) at' = inl refl
  joining-step {t = t} (of_ctrl i) at (ios_started is) at' = inl refl
  joining-step {t = t} (of_ctrl i) at (initialised is) at' = inl refl
  joining-step {t = t} (of_ctrl i) at (start_ctrl j is lt) at' = absurd (ground arith)
  joining-step {t = t} (of_ctrl i) at (ctrls_started is) at' = inl refl
  joining-step {t = t} (of_ctrl i) at (sleep is) at' = inl refl
  joining-step {t = t} (of_ctrl i) at (quit is) at' = inl refl
  joining-step {t = t} (of_ctrl i) at (stop_ctrl j is lt) at' = absurd (ground arith)
  joining-step {t = t} (of_ctrl i) at (join_ctrl j is done) at' = inl refl
  joining-step {t = t} (of_ctrl i) at (ctrls_stopped is) at' = inl refl
  joining-step {t = t} (of_ctrl i) at (stop_io j is lt) at' = inl refl
  joining-step {t = t} (of_ctrl i) at (join_io j is done) at' = inl refl
  joining-step {t = t} (of_ctrl i) at (finish is) at' = inl refl
  joining-step {t = t} (of_io i) at (io_moves j {w} lt move) at' = set_at-seen t.ios i j w move
  joining-step {t = t} (of_io i) at (ctrl_moves j {w} lt move) at' = inl refl
  joining-step {t = t} (of_io i) at (start_io j is lt) at' = absurd (ground arith)
  joining-step {t = t} (of_io i) at (ios_started is) at' = inl refl
  joining-step {t = t} (of_io i) at (initialised is) at' = inl refl
  joining-step {t = t} (of_io i) at (start_ctrl j is lt) at' = inl refl
  joining-step {t = t} (of_io i) at (ctrls_started is) at' = inl refl
  joining-step {t = t} (of_io i) at (sleep is) at' = inl refl
  joining-step {t = t} (of_io i) at (quit is) at' = inl refl
  joining-step {t = t} (of_io i) at (stop_ctrl j is lt) at' = inl refl
  joining-step {t = t} (of_io i) at (join_ctrl j is done) at' = inl refl
  joining-step {t = t} (of_io i) at (ctrls_stopped is) at' = inl refl
  joining-step {t = t} (of_io i) at (stop_io j is lt) at' = absurd (ground arith)
  joining-step {t = t} (of_io i) at (join_io j is done) at' = inl refl
  joining-step {t = t} (of_io i) at (finish is) at' = inl refl

  -- In every interleaving of a robot whose threads were never started: while the main thread waits in the
  -- `join` of a `stop`, the thread that is joined makes at most two steps, which are the end of the body
  -- of its loop and the test of `running`. Unless it has returned or is in a call that never returns, it
  -- has a next step towards its return; and every other step in the meantime leaves it alone.
  pub stop-waits :
      {main : MainPlace} {pick : Team → Worker} {s t : Team} (k : ℕ)
      → Reach m n bound s
      → Joins main pick
      → Waits m n main pick s k t
      → (k ≤ 2)
        × (((pick t).place ≡ returned)
            ⊎ ((pick t).place ≡ blocked)
            ⊎ ((w : Worker) × Move (pick t) w × (w.place ≢ blocked)))
        × ((u : Team) → Step m n t u → u.main ≡ main → (pick u ≡ pick t) ⊎ Move (pick t) (pick u))
  unfolding bound
  stop-waits {pick = pick} {s = s} {t = t} k reach joins wait =
      let inv = Reach-Inv reach (bound-Inv m n) in
      let range = Reach-InRange reach (omega arith) in
      let (inv_t, range_t, at, left) = Waits-left joins wait inv range in
      (
        omega (arith, left, to_return-le (pick s).place),
        told-moves (pick t) (Joins-told joins inv_t range_t at),
        λ u step at'. joining-step joins at step at',
      )
