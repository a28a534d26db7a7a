-- ===== src/Robot/Webots/Release.antt =====
-- The main thread does not wait for ever at the barrier.
use robo_band.Base.{ℕ, suc, ◌+◌, ◌*◌, ◌<◌, ◌≤◌, ◌≡◌, ◌≢◌, ap, sym, ◌∙◌, true, arith, inl, inr, ◌⊎◌}
use robo_band.Base.Float.{Float}
use robo_band.Io.Webots.{Webots}
use robo_band.Robot.Webots.System.{
  Place, starting, testing, looping, comparing, working, Looper, Move, begin, go_on, return, pass,
  arrive, work, skip, worked, choosing, blocked, System, begun, Step, pick, complete, enter, leave,
  advance, end, sync, stop, join, finish, Reach, released_main,
}
use robo_band.Robot.Webots.Family.{total, total-set_at, total-le}
use robo_band.Robot.Webots.Invariant.{Inv, in_loop, in_step, IsFresh, begun-Inv}
use robo_band.Robot.Webots.Invariant.Moves.{is_made}
use robo_band.Robot.Webots.Invariant.Steps.{Step-Inv, Reach-Inv}
use robo_band.Robot.Webots.Progress.{CanStep, blocked-CanStep}

-- How many moves a runner makes at most before it waits.
abbrev pub to_barrier : Place → ℕ
to_barrier comparing = 4
to_barrier working = 3
to_barrier starting = 3
to_barrier testing = 2
to_barrier looping = 1
to_barrier _ = 0

abbrev pub distance : Looper → ℕ
distance r = to_barrier r.place

choosing-not_blocked : choosing ≢ blocked
choosing-not_blocked = ground arith

distance-le : (r : Looper) → distance r ≤ 4
distance-le r = ground arith

-- The main thread is released, or some runner is nearer to the barrier.
abbrev Nearer : {W : Type 0} → ℕ → System W → System W → Type 0
Nearer n s t =
    (t.main ≡ choosing)
    ⊎ ((t.main ≡ blocked) × (total distance n t.loopers < total distance n s.loopers))

module _ {F : Type 0} ⦃f : Float F⦄ {W : Type 0} where
  -- While a barrier is there and it is not stopped, a runner comes nearer with every move.
  Move-nearer :
      {cycle_ms : F} {io io' : Webots W} {r r' : Looper}
      → Move cycle_ms io r io' r'
      → is_made io.sync_point ≡ true
      → r.running ≡ true
      → distance r' < distance r
  Move-nearer (begin at) made on = omega (arith, ap to_barrier at)
  Move-nearer (go_on at _) made on = omega (arith, ap to_barrier at)
  Move-nearer (return at off) made on = absurd (ground arith)
  Move-nearer (pass at free) made on = absurd (ground arith)
  Move-nearer (arrive b at _) made on = omega (arith, ap to_barrier at)
  Move-nearer (work at _) made on = omega (arith, ap to_barrier at)
  Move-nearer (skip at _) made on = omega (arith, ap to_barrier at)
  Move-nearer (worked at) made on = omega (arith, ap to_barrier at)

  -- k steps from a state to another, in all of which the main thread waits at the barrier.
  pub data Waits (cycles : ℕ → F) (n : ℕ) (s : System W) : ℕ → System W → Type 0 where
    waits : s.main ≡ blocked → Waits cycles n s 0 s
    still :
        {k : ℕ} {t u : System W}
        → Waits cycles n s k t
        → Step cycles n t u
        → u.main ≡ blocked
        → Waits cycles n s (suc k) u

  module _ {cycles : ℕ → F} {n : ℕ} where
    blocked-Nearer :
        {s t : System W} → Step cycles n s t → Inv n s → s.main ≡ blocked → Nearer n s t
    blocked-Nearer {s} (pick i {io} {r} lt move) inv at =
        let nearer =
          Move-nearer move (inv.made (ap in_step at)) (inv.active (ap in_loop at) i lt) in
        inr (at, omega (arith, nearer, total-set_at distance n i s.loopers r lt))
    blocked-Nearer (complete b made full) inv at = inl (ap released_main at)
    blocked-Nearer (enter at') inv at = absurd (ground arith)
    blocked-Nearer (leave at') inv at = absurd (ground arith)
    blocked-Nearer (advance answer at' _) inv at = absurd (ground arith)
    blocked-Nearer (end answer at' _) inv at = absurd (ground arith)
    blocked-Nearer (sync at') inv at = absurd (ground arith)
    blocked-Nearer (stop i at' lt) inv at = absurd (ground arith)
    blocked-Nearer (join i at' done) inv at = absurd (ground arith)
    blocked-Nearer (finish at') inv at = absurd (ground arith)

    -- What a wait of k steps leaves.
    Waits-left :
        {s t : System W} {k : ℕ}
        → Waits cycles n s k t
        → Inv n s
        → Inv n t
          × (t.main ≡ blocked)
          × (total distance n t.loopers + k ≤ total distance n s.loopers)
    Waits-left (waits at) inv = (inv, at, omega arith)
    Waits-left (still before step at) inv =
        let (inv_t, at_t, left) = Waits-left before inv in
        elim (blocked-Nearer step inv_t at_t) [
          | inl free ↦ absurd (choosing-not_blocked (sym free ∙ at))
          | inr (_, nearer) ↦ (Step-Inv step inv_t, at, omega (arith, left, nearer))
        ]

  -- From a simulator to which n runners are bound and that has made no step: in whatever order the
  -- threads go on, the main thread waits at the barrier during at most 4 n steps of the others. As
  -- long as it waits, one of them has a next step; and each of these steps leaves it waiting or
  -- brings it back to the test of `running`.
  pub barrier-releases :
      (cycles : ℕ → F) {n : ℕ} (io : Webots W) {s t : System W} (k : ℕ)
      → IsFresh n io
      → Reach cycles n (begun io) s
      → Waits cycles n s k t
      → (k ≤ 4 * n)
        × CanStep cycles n t
        × ((u : System W) → Step cycles n t u → (u.main ≡ choosing) ⊎ (u.main ≡ blocked))
  barrier-releases cycles {n} io {s} {t} k fresh reach wait =
      let inv = Reach-Inv reach (begun-Inv n io fresh) in
      let (inv_t, at, left) = Waits-left wait inv in
      (
        omega (arith, left, total-le distance 4 n s.loopers distance-le),
        blocked-CanStep cycles inv_t at,
        λ u step. elim (blocked-Nearer step inv_t at) [
          | inl free ↦ inl free
          | inr (blocked', _) ↦ inr blocked'
        ],
      )
