-- ===== src/App/Aokee/Retract.antt =====
-- The rounds of `devInit` and its end, each written out command by command.
use robo_band.Base.{
  ℕ, zero, suc, ◌<◌, ◌≡◌, refl, ap, ◌⊎◌, inl, inr, true, false, List, [], ◌∷◌, ◌++◌, if◌then◌else◌,
  length, arith,
}
use robo_band.Base.Int.{ℤ, pos}
use robo_band.Base.Float.{Float, ◌+ᶠ◌, ◌-ᶠ◌, ◌*ᶠ◌, zero_float}
use robo_band.Util.Math.{abs}
use robo_band.Util.Siso.{feed}
use robo_band.Util.Pid.{Pid, calc, pid_siso}
use robo_band.App.Aokee.{
  Aokee, Event, set_torque, set_angle, sleep, joint, wheel, Speeds, retracting, done, after,
  retract, all_stopped, set_angles, command, ends, next_time, loop, dev_init,
}

module _ {F : Type 0} ⦃f : Float F⦄ (a : Aokee F) where
  abbrev pub magnitude : F → F
  magnitude x = if f.lt x zero_float then f.neg x else x

  -- The commands of a round, for the speeds that the joints report in it: each joint gets the first output
  -- of its controller for what it lacks of the retraction speed, and a cycle is slept.
  abbrev pub round_events : Pid F → Pid F → Pid F → Pid F → Speeds F → List (Event F)
  round_events p0 p1 p2 p3 speeds =
      let lacks : ℕ → F = λ i. a.retract_speed -ᶠ speeds.commanded i in
      set_torque (joint 0) (calc p0 (lacks 0)).1
      ∷ set_torque (joint 1) (calc p1 (lacks 1)).1
      ∷ set_torque (joint 2) (calc p2 (lacks 2)).1
      ∷ set_torque (joint 3) (calc p3 (lacks 3)).1
      ∷ sleep (f.to_int (a.retract_ctrl_cycle_ms *ᶠ f.of_int (pos 1000000)))
      ∷ []

  abbrev pub rounds : Pid F → Pid F → Pid F → Pid F → List (Speeds F) → List (Event F)
  rounds p0 p1 p2 p3 [] = []
  rounds p0 p1 p2 p3 (speeds ∷ reports) =
      round_events p0 p1 p2 p3 speeds ++ rounds p0 p1 p2 p3 reports

  -- The angles of the four joints are set, and no motor gets a torque.
  abbrev pub ending : List (Event F)
  ending =
      set_angle (joint 0) a.joint_limit_angle
      ∷ set_angle (joint 1) a.joint_limit_angle
      ∷ set_angle (joint 2) a.joint_limit_angle
      ∷ set_angle (joint 3) a.joint_limit_angle
      ∷ set_torque (wheel 0) zero_float
      ∷ set_torque (joint 0) zero_float
      ∷ set_torque (joint 1) zero_float
      ∷ set_torque (wheel 1) zero_float
      ∷ set_torque (joint 2) zero_float
      ∷ set_torque (joint 3) zero_float
      ∷ []

  -- The time that is counted after some rounds.
  abbrev pub time_after : ℕ → ℤ → ℤ
  time_after zero t = t
  time_after (suc n) t = time_after n (f.to_int (f.of_int t +ᶠ a.retract_ctrl_cycle_ms))

  -- In a round at this time, the minimal time is over and all four joints are slow.
  abbrev pub Stops : ℤ → Speeds F → Type 0
  Stops t speeds =
      (f.lt a.retract_time_min_ms (f.of_int t) ≡ true)
      × ((i : ℕ) → i < 4 → f.lt a.motor_stop_speed (magnitude (speeds.tested i)) ≡ false)

  -- The minimal time is not over, or one of the four joints is fast.
  abbrev pub GoesOn : ℤ → Speeds F → Type 0
  GoesOn t speeds =
      (f.lt a.retract_time_min_ms (f.of_int t) ≡ false)
      ⊎ ((i : ℕ) × (i < 4) × (f.lt a.motor_stop_speed (magnitude (speeds.tested i)) ≡ true))

  -- Every round from a time on is one of these.
  abbrev pub AllGoOn : ℤ → List (Speeds F) → Type 0
  AllGoOn t [] = Unit
  AllGoOn t (speeds ∷ reports) =
      GoesOn t speeds × AllGoOn (f.to_int (f.of_int t +ᶠ a.retract_ctrl_cycle_ms)) reports

  all_stopped_fast :
      (n i : ℕ) (speed : ℕ → F)
      → i < n
      → f.lt a.motor_stop_speed (magnitude (speed i)) ≡ true
      → all_stopped a n speed ≡ false
  unfolding all_stopped abs
  all_stopped_fast zero i speed h fast = absurd (omega arith)
  all_stopped_fast (suc n) i speed h fast = ground (arith, all_stopped_fast n i speed)

  all_stopped_slow :
      (n : ℕ) (speed : ℕ → F)
      → ((i : ℕ) → i < n → f.lt a.motor_stop_speed (magnitude (speed i)) ≡ false)
      → all_stopped a n speed ≡ true
  unfolding all_stopped abs
  all_stopped_slow zero speed slow = refl
  all_stopped_slow (suc n) speed slow =
      let before = all_stopped_slow n speed (λ i h. slow i (omega arith)) in
      rw (before, slow n (omega arith)) refl

  GoesOn-ends : (t : ℤ) (speeds : Speeds F) → GoesOn t speeds → ends a t speeds ≡ false
  GoesOn-ends t speeds (inl early) = rw early refl
  GoesOn-ends t speeds (inr (i, h, fast)) =
      let moving = all_stopped_fast 4 i speeds.tested h fast in ground arith

  Stops-ends : (t : ℤ) (speeds : Speeds F) → Stops t speeds → ends a t speeds ≡ true
  Stops-ends t speeds (late, slow) = rw (late, all_stopped_slow 4 speeds.tested slow) refl

  module _ (p0 p1 p2 p3 : Pid F) (four : a.pid_retract ≡ p0 ∷ p1 ∷ p2 ∷ p3 ∷ []) where
    command-round :
        (speeds : Speeds F) → command a speeds.commanded ≡ round_events p0 p1 p2 p3 speeds
    unfolding retract feed
    command-round speeds = rw four refl

    loop-rounds :
        (reports : List (Speeds F)) (t : ℤ)
        → AllGoOn t reports
        → loop a t reports ≡ retracting (rounds p0 p1 p2 p3 reports)
    unfolding loop
    loop-rounds [] t on = refl
    loop-rounds (speeds ∷ reports) t (on, rest) =
        rw (GoesOn-ends t speeds on, command-round speeds)
          (ap (after (round_events p0 p1 p2 p3 speeds)) (loop-rounds reports (next_time a t) rest))

    loop-ending :
        (reports : List (Speeds F)) (still : Speeds F) (later : List (Speeds F)) (t : ℤ)
        → AllGoOn t reports
        → Stops (time_after (length reports) t) still
        → loop a t (reports ++ (still ∷ later))
          ≡ done (rounds p0 p1 p2 p3 reports ++ (round_events p0 p1 p2 p3 still ++ ending))
    unfolding loop set_angles
    loop-ending [] still later t on stop = rw (Stops-ends t still stop, command-round still) refl
    loop-ending (speeds ∷ reports) still later t (on, rest) stop =
        rw (GoesOn-ends t speeds on, command-round speeds)
          (ap (after (round_events p0 p1 p2 p3 speeds))
            (loop-ending reports still later (next_time a t) rest stop))

    -- With a controller for each of the four joints: as long as in every round the minimal time is not over
    -- or a joint is faster than the speed that counts as a stop, `devInit` goes on. In each round it
    -- commands the four joints, in order, the output of a controller that is as at the start, for the
    -- retraction speed less the speed reported, and sleeps a cycle; it commands nothing else.
    pub dev_init-rounds :
        (reports : List (Speeds F))
        → AllGoOn (pos 0) reports
        → dev_init a reports ≡ retracting (rounds p0 p1 p2 p3 reports)
    unfolding dev_init
    dev_init-rounds reports on = loop-rounds reports (pos 0) on

    -- With a controller for each of the four joints: in the first round in which the minimal time is over
    -- and no joint is faster than the speed that counts as a stop, `devInit` returns, whatever would be
    -- reported later. After the commands of the rounds, that one included, it has set the limit angle on the
    -- joints 0 to 3, once each, and then no torque on both wheels and the four joints.
    pub dev_init-ending :
        (reports : List (Speeds F)) (still : Speeds F) (later : List (Speeds F))
        → AllGoOn (pos 0) reports
        → Stops (time_after (length reports) (pos 0)) still
        → dev_init a (reports ++ (still ∷ later))
          ≡ done (rounds p0 p1 p2 p3 reports ++ (round_events p0 p1 p2 p3 still ++ ending))
    unfolding dev_init
    dev_init-ending reports still later on stop = loop-ending reports still later (pos 0) on stop
