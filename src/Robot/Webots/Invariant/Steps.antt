-- ===== src/Robot/Webots/Invariant/Steps.antt =====
-- Every step keeps the invariant.
use robo_band.Base.{ℕ, suc, ◌+◌, ◌<◌, ◌≤◌, ◌≡◌, ◌≢◌, refl, ap, sym, ◌∙◌, true, false, some, arith}
use robo_band.Base.Float.{Float}
use robo_band.Io.Webots.{Barrier, Webots, time_after, next_phase}
use robo_band.Robot.Slots.{set_at, set_at-all}
use robo_band.Robot.Webots.System.{
  returned, Looper, MainPlace, choosing, blocked, joining, stepping, System, released,
  released_main, Step, pick, complete, enter, leave, advance, end, sync, stop, join, finish, Reach,
  here, later,
}
use robo_band.Robot.Webots.Family.{
  wait, waiting_of, total-set_at, waiting_of-released, waiting_of-le, waiting_of-full,
  wait-released,
}
use robo_band.Robot.Webots.Invariant.{Inv, in_loop, main_wait, joined}
use robo_band.Robot.Webots.Invariant.Main.{
  enter-Inv, leave-Inv, advance-Inv, sync-Inv, stop-Inv, join-Inv, finish-Inv,
}
use robo_band.Robot.Webots.Invariant.Moves.{arrived_of, phase_of, size_of, Moved, Move-Moved}

choosing-not_joining : (i : ℕ) → choosing ≢ joining i
choosing-not_joining i = ground arith

waits-blocked : (main : MainPlace) → main_wait main ≡ 1 → main ≡ blocked
waits-blocked main h = ground arith

released-kept :
    (r : Looper)
    → ((released r).laps ≡ r.laps)
      × ((released r).running ≡ r.running)
      × ((released r).place ≡ returned → r.place ≡ returned)
released-kept r = ground arith

main_wait-le : (main : MainPlace) → main_wait main ≤ 1
main_wait-le main = ground arith

main-released : (main : MainPlace) → main_wait (released_main main) ≡ 0
main-released main = ground arith

module _ {W : Type 0} {n : ℕ} {s : System W} (inv : Inv n s) where
  pick-Inv :
      (i : ℕ) {io : Webots W} {r : Looper}
      → i < n
      → Moved s.io (s.loopers i) io r
      → Inv n (record s { io = io; loopers = set_at s.loopers i r })
  pick-Inv i {io} {r} lt m = record {
    bound = m.same.bound ∙ inv.bound;
    size = m.same.size (suc n) ∙ inv.size;
    made = λ step. m.same.made ∙ inv.made step;
    count = omega (arith, m.arrived, total-set_at wait n i s.loopers r lt, inv.count);
    laps =
        set_at-all (λ j x. x.laps ≡ phase_of io.sync_point + wait x) s.loopers i r n
          (omega (arith, inv.laps i lt, m.laps, m.same.phase))
          (λ j l. inv.laps j l ∙ ap (λ p. p + wait (s.loopers j)) (sym m.same.phase));
    main_laps = omega (arith, inv.main_laps, m.same.phase);
    active = λ loop.
        set_at-all (λ j x. x.running ≡ true) s.loopers i r n (m.running ∙ inv.active loop i lt)
          (inv.active loop);
    ended =
        set_at-all (λ j x. x.place ≡ returned → x.running ≡ false) s.loopers i r n
          (λ e. m.running ∙ m.ended e) inv.ended;
    gone = λ j l.
        set_at-all (λ k x. k < joined n s.main → x.place ≡ returned) s.loopers i r (suc j)
          (λ h. absurd (m.going (inv.gone i h))) (λ k _. inv.gone k) j (omega arith) l;
    few = inv.few;
    most = inv.most;
  }

  -- When the barrier is full, the main thread waits and so does every runner.
  pub full-wait :
      (b : Barrier)
      → s.io.sync_point ≡ some b
      → b.arrived ≡ b.expected
      → (main_wait s.main ≡ 1) × (waiting_of n s.loopers ≡ n)
  full-wait b made full =
      let expected : b.expected ≡ suc n = ap (size_of (suc n)) (sym made) ∙ inv.size in
      let arrived : b.arrived ≡ main_wait s.main + waiting_of n s.loopers =
        ap arrived_of (sym made) ∙ inv.count in
      let le = waiting_of-le n s.loopers in
      let main_le = main_wait-le s.main in (omega arith, omega arith)

  complete-Inv :
      (b : Barrier)
      → s.io.sync_point ≡ some b
      → b.arrived ≡ b.expected
      → Inv n (record s {
        io = record s.io { sync_point = some (next_phase b) };
        main = released_main s.main;
        loopers = λ i. released (s.loopers i);
      })
  unfolding next_phase
  complete-Inv b made full =
      let (main_waits, all) = full-wait b made full in
      let is_blocked = waits-blocked s.main main_waits in
      let go_on : released_main s.main ≡ choosing = ap released_main is_blocked in
      let expected : b.expected ≡ suc n = ap (size_of (suc n)) (sym made) ∙ inv.size in
      let phase : phase_of s.io.sync_point ≡ b.phase = ap phase_of made in
      record {
        bound = inv.bound;
        size = expected;
        made = λ step. refl;
        count = omega (arith, waiting_of-released n s.loopers, main-released s.main);
        laps = λ i lt. omega (
          arith,
          phase,
          inv.laps i lt,
          waiting_of-full n s.loopers all i lt,
          released-kept (s.loopers i),
          wait-released (s.loopers i),
        );
        main_laps = omega (arith, phase, inv.main_laps, main_waits, main-released s.main);
        active =
            λ loop i lt. (released-kept (s.loopers i)).1 ∙ inv.active (ap in_loop is_blocked) i lt;
        ended = λ i lt e.
            (released-kept (s.loopers i)).1 ∙ inv.ended i lt ((released-kept (s.loopers i)).2 e);
        gone = λ i lt. absurd (omega (arith, lt, ap (joined n) go_on));
        few = λ i e. absurd (choosing-not_joining i (sym go_on ∙ e));
        most = omega (arith, ap (joined n) go_on);
      }

module _ {F : Type 0} ⦃f : Float F⦄ {W : Type 0} {cycles : ℕ → F} {n : ℕ} where
  pub Step-Inv : {s t : System W} → Step cycles n s t → Inv n s → Inv n t
  Step-Inv {s} (pick i lt move) inv = pick-Inv inv i lt (Move-Moved move)
  Step-Inv (complete b made full) inv = complete-Inv inv b made full
  Step-Inv (enter at) inv = enter-Inv inv at
  Step-Inv {s} (leave at) inv = leave-Inv inv s.io.time choosing at refl
  Step-Inv (advance answer at _) inv = advance-Inv inv (time_after answer) at
  Step-Inv (end answer at _) inv = leave-Inv inv (time_after answer) stepping at refl
  Step-Inv (sync at) inv = sync-Inv inv at
  Step-Inv (stop i at lt) inv = stop-Inv inv i at lt
  Step-Inv (join i at done) inv = join-Inv inv i at done
  Step-Inv (finish at) inv = finish-Inv inv at

  pub Reach-Inv : {s t : System W} → Reach cycles n s t → Inv n s → Inv n t
  Reach-Inv here inv = inv
  Reach-Inv (later before step) inv = Step-Inv step (Reach-Inv before inv)
