-- ===== src/Util/Pid/Bounds.antt =====
-- The output and the integral of the PID controller stay inside their limits.
use robo_band.Base.{◌≡◌, ◌⊎◌, inl, inr, Bool-cases, refl, true, false, List, [], ◌∷◌, All}
use robo_band.Base.Float.{Float, IsOrdered, IsNumber}
use robo_band.Util.Siso.{limit_abs, assign, func_siso}
use robo_band.Util.Siso.Limits.{limit_bounds}
use robo_band.Util.Pid.{Pid, calc, calc_all}

-- Neither below -n nor above n. A NaN is neither.
abbrev pub Within {ℓ} : {F : Type ℓ} ⦃f : Float F⦄ → F → F → Type 0
Within ⦃f⦄ n x = (f.lt x (f.neg n) ≡ false) × (f.lt n x ≡ false)

-- From -n to n, or a NaN.
abbrev pub Stays {ℓ} : {F : Type ℓ} ⦃f : Float F⦄ → F → F → Type 0
Stays ⦃f⦄ n x = (f.le x x ≡ false) ⊎ ((f.le (f.neg n) x ≡ true) × (f.le x n ≡ true))

-- A number that is not negative, whose negation is a number.
pub record IsLimit {ℓ} {F : Type ℓ} ⦃f : Float F⦄ (n : F) : Type 0 where
  pub not_negative : f.lt n (f.neg n) ≡ false
  pub number : IsNumber n
  pub neg_number : IsNumber (f.neg n)

module _ {ℓ} {F : Type ℓ} ⦃f : Float F⦄ (laws : IsOrdered F) where
  assign-limit_abs-Within : (n x : F) → f.lt n (f.neg n) ≡ false → Within n (assign x (limit_abs n))
  unfolding assign limit_abs
  assign-limit_abs-Within n x h = limit_bounds laws (f.neg n) n x h

  calc-Within :
      (pid : Pid F) (err : F)
      → f.lt pid.max_iout (f.neg pid.max_iout) ≡ false
      → f.lt pid.max_out (f.neg pid.max_out) ≡ false
      → let (next, out) = calc pid err in
        (next.param ≡ pid.param) × Within pid.max_iout next.i_out × Within pid.max_out out
  unfolding calc
  calc-Within pid err hi ho =
      (refl, assign-limit_abs-Within pid.max_iout _ hi, assign-limit_abs-Within pid.max_out _ ho)

  pub Within-Stays : (n x : F) → IsLimit n → Within n x → Stays n x
  Within-Stays n x h (low, high) = elim (Bool-cases (f.le x x)) [
    | inl number ↦
        inr (laws.not-lt x (f.neg n) number h.neg_number low, laws.not-lt n x h.number number high)
    | inr nan ↦ inl nan
  ]

  calc_all-Within :
      (pid : Pid F) (errs : List F)
      → f.lt pid.max_iout (f.neg pid.max_iout) ≡ false
      → f.lt pid.max_out (f.neg pid.max_out) ≡ false
      → Within pid.max_iout pid.i_out
      → let (last, outs) = calc_all pid errs in
        Within pid.max_iout last.i_out × All (Within pid.max_out) outs
  unfolding calc_all calc
  calc_all-Within pid [] hi ho start = (start, tt)
  calc_all-Within pid (err ∷ errs) hi ho start =
      let (_, i, o) = calc-Within pid err hi ho in
      let (last, outs) = calc_all-Within (calc pid err).0 errs hi ho i in (last, (o, outs))

  All-Stays : (n : F) (xs : List F) → IsLimit n → All (Within n) xs → All (Stays n) xs
  All-Stays n [] h all = tt
  All-Stays n (x ∷ xs) h (first, rest) = (Within-Stays n x h first, All-Stays n xs h rest)

  -- Given the order laws of floats: if both limits are numbers that are not negative and the integral is at
  -- the start neither above `max_iout` nor below its negation, then over any sequence of errors, whatever
  -- the gains are, every output is a NaN or lies from -max_out to max_out, and the integral ends as a
  -- NaN or from -max_iout to max_iout.
  pub calc_all-Stays :
      (pid : Pid F) (errs : List F)
      → IsLimit pid.max_iout
      → IsLimit pid.max_out
      → Within pid.max_iout pid.i_out
      → let (last, outs) = calc_all pid errs in
        Stays pid.max_iout last.i_out × All (Stays pid.max_out) outs
  calc_all-Stays pid errs hi ho start =
      let (last, outs) = calc_all-Within pid errs hi.not_negative ho.not_negative start in
      (
        Within-Stays pid.max_iout (calc_all pid errs).0.i_out hi last,
        All-Stays pid.max_out (calc_all pid errs).1 ho outs,
      )
