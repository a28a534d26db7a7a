-- ===== src/Robot/Webots/Invariant/Main.antt =====
-- The steps of the main thread keep the invariant.
use robo_band.Base.{ℕ, suc, ◌+◌, ◌<◌, ◌≤◌, ◌≡◌, refl, ap, sym, ◌∙◌, true, false, arith, inl, inr}
use robo_band.Base.Int.{ℤ}
use robo_band.Io.Webots.{Webots, make_barrier, arrive_at}
use robo_band.Robot.Slots.{set_at, set_at-all}
use robo_band.Robot.Webots.System.{
  returned, Looper, MainPlace, choosing, stepping, syncing, blocked, stopping, joining, finished,
  System,
}
use robo_band.Robot.Webots.Family.{wait, total-set_at, lt-cases}
use robo_band.Robot.Webots.Invariant.{Inv, in_loop, in_step, main_wait, joined}
use robo_band.Robot.Webots.Invariant.Moves.{
  arrived_of, phase_of, size_of, is_made, arrive_at-Same, arrive_at-arrived,
}

make_barrier-counts :
    {W : Type 0} (n : ℕ) (io : Webots W)
    → io.bind_runner_num ≡ n
    → size_of (suc n) io.sync_point ≡ suc n
    → let io' = make_barrier io in
      (io'.bind_runner_num ≡ n)
      × (size_of (suc n) io'.sync_point ≡ suc n)
      × (is_made io'.sync_point ≡ true)
      × (phase_of io'.sync_point ≡ phase_of io.sync_point)
      × (arrived_of io'.sync_point ≡ arrived_of io.sync_point)
unfolding make_barrier
make_barrier-counts n io bound size = ground arith

module _ {W : Type 0} {n : ℕ} {s : System W} (inv : Inv n s) where
  -- The main thread goes to another place; the runners stay.
  goes-Inv :
      (io : Webots W) (main : MainPlace) (laps : ℕ)
      → io.bind_runner_num ≡ n
      → size_of (suc n) io.sync_point ≡ suc n
      → (in_step main ≡ true → is_made io.sync_point ≡ true)
      → phase_of io.sync_point ≡ phase_of s.io.sync_point
      → arrived_of io.sync_point + main_wait s.main ≡ arrived_of s.io.sync_point + main_wait main
      → laps + main_wait s.main ≡ s.main_laps + main_wait main
      → (in_loop main ≡ true → in_loop s.main ≡ true)
      → ((i : ℕ) → i < joined n main → (s.loopers i).place ≡ returned)
      → ((i : ℕ) → main ≡ joining i → i < n)
      → joined n main ≤ n
      → Inv n (record s { io = io; main = main; main_laps = laps })
  goes-Inv io main laps bound size made phase count laps_ok loop gone few most = record {
    bound = bound;
    size = size;
    made = made;
    count = omega (arith, count, inv.count);
    laps = λ i lt. omega (arith, inv.laps i lt, phase);
    main_laps = omega (arith, laps_ok, inv.main_laps, phase);
    active = λ h. inv.active (loop h);
    ended = inv.ended;
    gone = gone;
    few = few;
    most = most;
  }

  -- It goes on without the barrier.
  passes-Inv :
      (time : ℤ) (main : MainPlace)
      → main_wait s.main ≡ 0
      → main_wait main ≡ 0
      → (in_step main ≡ true → in_step s.main ≡ true)
      → (in_loop main ≡ true → in_loop s.main ≡ true)
      → ((i : ℕ) → i < joined n main → (s.loopers i).place ≡ returned)
      → ((i : ℕ) → main ≡ joining i → i < n)
      → joined n main ≤ n
      → Inv n (record s { io = record s.io { time = time }; main = main })
  passes-Inv time main from to step loop gone few most =
      goes-Inv (record s.io { time = time }) main s.main_laps inv.bound inv.size
        (λ h. inv.made (step h)) refl (omega (arith, from, to)) (omega (arith, from, to)) loop gone
        few most

  pub enter-Inv : s.main ≡ choosing → Inv n (record s { io = make_barrier s.io; main = stepping })
  enter-Inv at =
      let (bound, size, made, phase, arrived) = make_barrier-counts n s.io inv.bound inv.size in
      goes-Inv (make_barrier s.io) stepping s.main_laps bound size (λ h. made) phase
        (omega (arith, arrived, ap main_wait at)) (omega (arith, ap main_wait at))
        (λ h. ap in_loop at) (λ i lt. absurd (omega (arith, lt))) (λ i e. ground arith)
        (omega arith)

  pub sync-Inv :
      s.main ≡ syncing
      → Inv n (record s { io = arrive_at s.io; main = blocked; main_laps = suc s.main_laps })
  sync-Inv at =
      let made = inv.made (ap in_step at) in
      let same = arrive_at-Same s.io in
      goes-Inv (arrive_at s.io) blocked (suc s.main_laps) (same.bound ∙ inv.bound)
        (same.size (suc n) ∙ inv.size) (λ h. same.made ∙ made) same.phase
        (omega (arith, arrive_at-arrived s.io made, ap main_wait at))
        (omega (arith, ap main_wait at)) (λ h. ap in_loop at) (λ i lt. absurd (omega (arith, lt)))
        (λ i e. ground arith) (omega arith)

  pub leave-Inv :
      (time : ℤ) (main : MainPlace)
      → s.main ≡ main
      → main_wait main ≡ 0
      → Inv n (record s { io = record s.io { time = time }; main = stopping 0 })
  leave-Inv time main at idle =
      passes-Inv time (stopping 0) (ap main_wait at ∙ idle) refl (λ h. ground arith)
        (λ h. ground arith) (λ i lt. absurd (omega arith)) (λ i e. ground arith) (omega arith)

  pub advance-Inv :
      (time : ℤ)
      → s.main ≡ stepping
      → Inv n (record s { io = record s.io { time = time }; main = syncing })
  advance-Inv time at =
      passes-Inv time syncing (ap main_wait at) refl (λ h. ap in_step at) (λ h. ap in_loop at)
        (λ i lt. absurd (omega arith)) (λ i e. ground arith) (omega arith)

  pub join-Inv :
      (i : ℕ)
      → s.main ≡ joining i
      → (s.loopers i).place ≡ returned
      → Inv n (record s { main = stopping (suc i) })
  join-Inv i at done =
      passes-Inv s.io.time (stopping (suc i)) (ap main_wait at) refl (λ h. ground arith)
        (λ h. ground arith)
        (λ j lt. elim (lt-cases j i lt) [
          | inl before ↦ inv.gone j (omega (arith, before, ap (joined n) at))
          | inr same ↦ ap (λ k. (s.loopers k).place) (sym same) ∙ done
        ])
        (λ j e. ground arith) (omega (arith, inv.few i at))

  pub finish-Inv : s.main ≡ stopping n → Inv n (record s { main = finished })
  finish-Inv at =
      passes-Inv s.io.time finished (ap main_wait at) refl (λ h. ground arith) (λ h. ground arith)
        (λ j lt. inv.gone j (omega (arith, lt, ap (joined n) at))) (λ j e. ground arith)
        (omega arith)

  -- `stop` of a runner, up to `join`.
  pub stop-Inv :
      (i : ℕ)
      → s.main ≡ stopping i
      → i < n
      → Inv n (record s {
        main = joining i;
        loopers = set_at s.loopers i (record (s.loopers i) { running = false });
      })
  stop-Inv i at lt =
      let r : Looper = record (s.loopers i) { running = false } in
      record {
        bound = inv.bound;
        size = inv.size;
        made = λ h. ground arith;
        count = omega (arith, inv.count, ap main_wait at, total-set_at wait n i s.loopers r lt);
        laps =
            set_at-all (λ j x. x.laps ≡ phase_of s.io.sync_point + wait x) s.loopers i r n
              (inv.laps i lt) inv.laps;
        main_laps = omega (arith, inv.main_laps, ap main_wait at);
        active = λ h. ground arith;
        ended =
            set_at-all (λ j x. x.place ≡ returned → x.running ≡ false) s.loopers i r n (λ e. refl)
              inv.ended;
        gone = λ j l.
            set_at-all (λ k x. k < i → x.place ≡ returned) s.loopers i r i
              (λ h. absurd (omega (arith, h)))
              (λ k _ h. inv.gone k (omega (arith, h, ap (joined n) at))) j l l;
        few = λ j e. ground arith;
        most = omega (arith, lt);
      }
