-- ===== src/Robot/Webots/Hang.antt =====
-- A runner that waits at the barrier when the main thread stops the robot.
use robo_band.Base.{
  ℕ, ◌<◌, ◌≡◌, ◌≢◌, refl, ap, sym, ◌∙◌, false, arith, ◌==◌, ==_iff, Bool-cases, inl, inr,
}
use robo_band.Base.Float.{Float}
use robo_band.Io.Webots.{Webots}
use robo_band.Robot.Slots.{set_at}
use robo_band.Robot.Webots.System.{
  waiting, returned, Looper, MainPlace, finished, System, begun, Step, pick, complete, enter, leave,
  advance, end, sync, stop, join, finish, Reach, here, later,
}
use robo_band.Robot.Webots.Invariant.{Inv, in_loop, main_wait, joined, IsFresh, begun-Inv}
use robo_band.Robot.Webots.Invariant.Moves.{Move-Moved}
use robo_band.Robot.Webots.Invariant.Steps.{Reach-Inv, full-wait}

-- The main thread has left its loop, and the i-th runner waits.
pub record Hangs {W : Type 0} (i : ℕ) (s : System W) : Type 0 where
  pub left : in_loop s.main ≡ false
  pub waits : (s.loopers i).place ≡ waiting

waiting-not_returned : waiting ≢ returned
waiting-not_returned = ground arith

main_wait-loop : (main : MainPlace) → in_loop main ≡ false → main_wait main ≡ 0
main_wait-loop main h = ground arith

-- A change of another runner, or one that leaves the place alone.
set_at-waits :
    (g : ℕ → Looper) (i j : ℕ) (r : Looper)
    → (g i).place ≡ waiting
    → (j ≡ i → r.place ≡ waiting)
    → (set_at g j r i).place ≡ waiting
set_at-waits g i j r waits same = elim (Bool-cases (i == j)) [
  | inl e ↦ rw e (same (sym ((==_iff i j).0 e)))
  | inr other ↦ rw other waits
]

module _ {F : Type 0} ⦃f : Float F⦄ {W : Type 0} {cycles : ℕ → F} {n : ℕ} where
  Step-Hangs : {s t : System W} (i : ℕ) → Step cycles n s t → Inv n s → Hangs i s → Hangs i t
  Step-Hangs {s} i (pick j {r = r} lt move) inv h = record {
    left = h.left;
    waits =
        set_at-waits s.loopers i j r h.waits
          (λ same. absurd ((Move-Moved move).woken (ap (λ k. (s.loopers k).place) same ∙ h.waits)));
  }
  Step-Hangs {s} i (complete b made full) inv h =
      let (main_waits, _) = full-wait inv b made full in
      absurd (omega (arith, main_waits, main_wait-loop s.main h.left))
  Step-Hangs i (enter at) inv h = absurd (ground arith)
  Step-Hangs i (leave at) inv h = absurd (ground arith)
  Step-Hangs i (advance answer at _) inv h = absurd (ground arith)
  Step-Hangs i (end answer at _) inv h = absurd (ground arith)
  Step-Hangs i (sync at) inv h = absurd (ground arith)
  Step-Hangs {s} i (stop j at lt) inv h = record {
    left = refl;
    waits =
        set_at-waits s.loopers i j (record (s.loopers j) { running = false }) h.waits
          (λ same. ap (λ k. (s.loopers k).place) same ∙ h.waits);
  }
  Step-Hangs i (join j at done) inv h = record { left = refl; waits = h.waits }
  Step-Hangs i (finish at) inv h = record { left = refl; waits = h.waits }

  Reach-Hangs : {s t : System W} (i : ℕ) → Reach cycles n s t → Inv n s → Hangs i s → Hangs i t
  Reach-Hangs i here inv h = h
  Reach-Hangs i (later before step) inv h =
      Step-Hangs i step (Reach-Inv before inv) (Reach-Hangs i before inv h)

  -- From a simulator to which all runners are bound and that has made no step: if the main thread
  -- has left its loop, as it does when `step` returns -1, and a runner waits at the barrier then,
  -- that runner still waits in every state that is reached later, and `Robot::run` has returned in
  -- none of them.
  pub stop-Hangs :
      (io : Webots W) {s t : System W} (i : ℕ)
      → IsFresh n io
      → Reach cycles n (begun io) s
      → i < n
      → Hangs i s
      → Reach cycles n s t
      → ((t.loopers i).place ≡ waiting) × (t.main ≢ finished)
  stop-Hangs io {t = t} i fresh before lt h after =
      let inv = Reach-Inv before (begun-Inv n io fresh) in
      let hangs = Reach-Hangs i after inv h in
      let inv_t = Reach-Inv after inv in
      (
        hangs.waits,
        λ e.
            waiting-not_returned
              (sym hangs.waits ∙ inv_t.gone i (omega (arith, lt, ap (joined n) e))),
      )
