-- ===== src/Util/Pid/History.antt =====
-- The PID controller against its textbook description: the output as a function of the errors so far,
-- with no state.
use mathlib.Core.Path.{ap₂}
use robo_band.Base.{◌≡◌, refl, ap, List, [], ◌∷◌, map}
use robo_band.Base.Float.{Float, zero_float, ◌+ᶠ◌, ◌-ᶠ◌, ◌*ᶠ◌}
use robo_band.Util.Siso.{limit_abs, assign, func_siso, feed}
use robo_band.Util.Pid.{PidParam, Pid, new_pid, calc, calc_all, pid_siso}

module _ {ℓ} {F : Type ℓ} ⦃f : Float F⦄ (param : PidParam F) where
  open param use {kp, ki, kd, max_iout, max_out}

  -- The past errors stand newest first.
  abbrev pub integral : List F → F
  integral [] = zero_float
  integral (err ∷ past) = limit_abs max_iout (integral past +ᶠ ki *ᶠ err)

  abbrev pub last_error : List F → F
  last_error [] = zero_float
  last_error (err ∷ past) = err

  abbrev pub response : List F → F → F
  response past err =
      limit_abs max_out (kp *ᶠ err +ᶠ integral (err ∷ past) +ᶠ kd *ᶠ (err -ᶠ last_error past))

  abbrev pub responses : List F → List F → List F
  responses past [] = []
  responses past (err ∷ errs) = response past err ∷ responses (err ∷ past) errs

  -- What the state remembers of the past.
  record Remembers (past : List F) (pid : Pid F) : Type ℓ where
    same_param : pid.param ≡ param
    same_integral : pid.i_out ≡ integral past
    same_error : pid.error0 ≡ last_error past

  calc-Remembers :
      (past : List F) (pid : Pid F) (err : F)
      → Remembers past pid
      → Remembers (err ∷ past) (calc pid err).0 × ((calc pid err).1 ≡ response past err)
  unfolding calc assign
  calc-Remembers past pid err r = (
    record {
      same_param = r.same_param;
      same_integral = simp (r.same_param, r.same_integral);
      same_error = refl;
    },
    simp (r.same_param, r.same_integral, r.same_error),
  )

  calc_all-responses_from :
      (past : List F) (pid : Pid F) (errs : List F)
      → Remembers past pid
      → (calc_all pid errs).1 ≡ responses past errs
  unfolding calc_all
  calc_all-responses_from past pid [] r = refl
  calc_all-responses_from past pid (err ∷ errs) r =
      let (next, out) = calc-Remembers past pid err r in
      ap₂ ◌∷◌ out (calc_all-responses_from (err ∷ past) (calc pid err).0 errs next)

  -- A new controller called on one error after another answers each error by the textbook formula
  -- over that error and those before it, with the integral clamped at each step.
  pub calc_all-responses : (errs : List F) → (calc_all (new_pid param) errs).1 ≡ responses [] errs
  unfolding new_pid
  calc_all-responses errs =
      calc_all-responses_from [] (new_pid param) errs
        (record { same_param = refl; same_integral = refl; same_error = refl })

  -- Fed through `>>`, which copies it, a new controller answers every error as if it were the first:
  -- nothing is integrated, and the derivative is taken against a zero error.
  pub feed_forgets :
      (errs : List F) → map (λ err. (feed err (new_pid param)).o) errs ≡ map (response []) errs
  unfolding new_pid feed calc assign
  feed_forgets [] = refl
  feed_forgets (err ∷ errs) = ap (◌∷◌ (response [] err)) (feed_forgets errs)
