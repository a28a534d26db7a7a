-- ===== src/Robot/Webots/Progress.antt =====
-- Which states of a simulated robot have a next step.
use robo_band.Base.{
  ℕ, suc, ◌+◌, ◌<◌, ◌≡◌, ◌≢◌, refl, ap, sym, ◌∙◌, true, false, Option, none, some, arith, inl, inr,
  ◌⊎◌, Bool-cases, Option-cases,
}
use robo_band.Base.Int.{negsuc, leb_ℤ}
use robo_band.Base.Float.{Float}
use robo_band.Io.Webots.{Barrier, Webots, is_running, time_after}
use robo_band.Robot.Webots.System.{
  Place, starting, testing, looping, waiting, comparing, working, returned, Looper, Move, begin,
  go_on, return, pass, arrive, work, skip, worked, MainPlace, choosing, stepping, syncing, blocked,
  stopping, joining, finished, System, begun, Step, pick, complete, enter, end, sync, stop, join,
  finish, Reach,
}
use robo_band.Robot.Webots.Family.{wait, waiting_of, all-wait, lt-cases}
use robo_band.Robot.Webots.Invariant.{Inv, in_loop, in_step, main_wait, joined, IsFresh, begun-Inv}
use robo_band.Robot.Webots.Invariant.Moves.{is_made, arrived_of, size_of}
use robo_band.Robot.Webots.Invariant.Steps.{Reach-Inv}

-- The main thread joins a runner that waits at the barrier.
abbrev pub Stuck : {W : Type 0} → System W → Type 0
Stuck s = (i : ℕ) × (s.main ≡ joining i) × ((s.loopers i).place ≡ waiting)

true-not_false : true ≢ false
true-not_false = ground arith

idle-not_waiting : (r : Looper) → wait r ≡ 0 → r.place ≢ waiting
idle-not_waiting r h = ground arith

made-barrier : (o : Option Barrier) → is_made o ≡ true → (b : Barrier) × (o ≡ some b)
made-barrier none h = absurd (ground arith)
made-barrier (some b) h = (b, refl)

Place-cases : (p : Place) → (p ≡ waiting) ⊎ ((p ≡ returned) ⊎ ((p ≢ waiting) × (p ≢ returned)))
Place-cases p = ground arith

ended-time :
    {F : Type 0} ⦃f : Float F⦄ (get_time : F)
    → is_running (time_after (record { result = negsuc 0; get_time = get_time })) ≡ false
unfolding time_after is_running
ended-time get_time = refl

module _ {F : Type 0} ⦃f : Float F⦄ {W : Type 0} where
  abbrev CanMove : F → Webots W → Looper → Type 0
  CanMove cycle_ms io r = (io' : Webots W) × (r' : Looper) × Move cycle_ms io r io' r'

  -- A runner moves from every place but two.
  move-from :
      (cycle_ms : F) (io : Webots W) (r : Looper) (place : Place)
      → r.place ≡ place
      → place ≢ waiting
      → place ≢ returned
      → CanMove cycle_ms io r
  move-from c io r starting at w d = (_, _, begin at)
  move-from c io r testing at w d = elim (Bool-cases r.running) [
    | inl on ↦ (_, _, go_on at on)
    | inr off ↦ (_, _, return at off)
  ]
  move-from c io r looping at w d = elim (Option-cases io.sync_point) [
    | inl free ↦ (_, _, pass at free)
    | inr (b, made) ↦ (_, _, arrive b at made)
  ]
  move-from c io r waiting at w d = absurd (w refl)
  move-from c io r comparing at w d = elim (Bool-cases (leb_ℤ io.time r.time_set)) [
    | inl due ↦ (_, _, work at due)
    | inr early ↦ (_, _, skip at early)
  ]
  move-from c io r working at w d = (_, _, worked at)
  move-from c io r returned at w d = absurd (d refl)

  abbrev pub CanStep : (ℕ → F) → ℕ → System W → Type 0
  CanStep cycles n s = (t : System W) × Step cycles n s t

  module _ (cycles : ℕ → F) {n : ℕ} {s : System W} (inv : Inv n s) where
    pick-CanStep :
        (i : ℕ)
        → i < n
        → (s.loopers i).place ≢ waiting
        → (s.loopers i).place ≢ returned
        → CanStep cycles n s
    pick-CanStep i lt awake going =
        let (_, _, move) =
          move-from (cycles i) s.io (s.loopers i) (s.loopers i).place refl awake going in
        (_, pick i lt move)

    -- In the loop no runner has returned.
    loop-going : (i : ℕ) → i < n → in_loop s.main ≡ true → (s.loopers i).place ≢ returned
    loop-going i lt loop e = true-not_false (sym (inv.active loop i lt) ∙ inv.ended i lt e)

    -- While the main thread waits, the phase is complete or some runner moves.
    pub blocked-CanStep : s.main ≡ blocked → CanStep cycles n s
    blocked-CanStep at = elim (all-wait n s.loopers) [
      | inr (i, lt, idle) ↦
          pick-CanStep i lt (idle-not_waiting (s.loopers i) idle) (loop-going i lt (ap in_loop at))
      | inl all ↦
          let (b, made) = made-barrier s.io.sync_point (inv.made (ap in_step at)) in
          let size : b.expected ≡ suc n = ap (size_of (suc n)) (sym made) ∙ inv.size in
          let arrived : b.arrived ≡ main_wait s.main + waiting_of n s.loopers =
            ap arrived_of (sym made) ∙ inv.count in
          (_, complete b made (omega (arith, all, ap main_wait at)))
    ]

    main-goes :
        (main : MainPlace) → s.main ≡ main → CanStep cycles n s ⊎ ((s.main ≡ finished) ⊎ Stuck s)
    main-goes choosing at = inl (_, enter at)
    main-goes stepping at =
        inl (_, end (record { result = negsuc 0; get_time = f.pi }) at (ended-time f.pi))
    main-goes syncing at = inl (_, sync at)
    main-goes blocked at = inl (blocked-CanStep at)
    main-goes (stopping i) at = elim (lt-cases i n (omega (arith, inv.most, ap (joined n) at))) [
      | inl lt ↦ inl (_, stop i at lt)
      | inr same ↦ inl (_, finish (at ∙ ap stopping (sym same)))
    ]
    main-goes (joining i) at = elim (Place-cases (s.loopers i).place) [
      | inl waits ↦ inr (inr (i, at, waits))
      | inr (inl done) ↦ inl (_, join i at done)
      | inr (inr (awake, going)) ↦ inl (pick-CanStep i (inv.few i at) awake going)
    ]
    main-goes finished at = inr (inl at)

  -- In every state that is reached from a simulator to which all runners are bound and that has made no
  -- step, some thread has a next step, or the main thread is done, or it joins a runner that waits at
  -- the barrier: no other deadlock is possible, and none at all while the main thread is in its loop.
  pub Reach-progress :
      (cycles : ℕ → F) {n : ℕ} (io : Webots W) {s : System W}
      → IsFresh n io
      → Reach cycles n (begun io) s
      → (CanStep cycles n s ⊎ ((s.main ≡ finished) ⊎ Stuck s))
        × (in_loop s.main ≡ true → CanStep cycles n s)
  Reach-progress cycles {n} io {s} fresh reach =
      let outcome = main-goes cycles (Reach-Inv reach (begun-Inv n io fresh)) s.main refl in
      (
        outcome,
        λ loop. elim outcome [
          | inl step ↦ step
          | inr (inl done) ↦ absurd (true-not_false (sym loop ∙ ap in_loop done))
          | inr (inr (i, at, _)) ↦ absurd (true-not_false (sym loop ∙ ap in_loop at))
        ],
      )
