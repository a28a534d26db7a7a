-- ===== src/Util/Pid.antt =====
-- The PID controller of src/util/siso.hpp and src/util/siso.cc.
pub mod Bounds
pub mod History
pub mod Examples
use robo_band.Base.{ℕ, List, [], ◌∷◌, Option, none, some}
use robo_band.Base.Float.{Float, ◌+ᶠ◌, ◌-ᶠ◌, ◌*ᶠ◌, zero_float}
use robo_band.Util.Siso.{SisoSys, SisoFunc, func_siso, assign, limit_abs}

pub record PidParam {ℓ} (F : Type ℓ) : Type ℓ where
  pub kp : F
  pub ki : F
  pub kd : F
  pub max_iout : F
  pub max_out : F

-- `error0` and `error1` are `error[0]` and `error[1]`.
pub record Pid {ℓ} (F : Type ℓ) : Type ℓ where
  pub param : PidParam F
  pub open param use *
  pub p_out : F
  pub i_out : F
  pub d_out : F
  pub out : F
  pub error0 : F
  pub error1 : F

module _ {ℓ} {F : Type ℓ} ⦃f : Float F⦄ where
  -- The constructors: from the parameters, from an array of five, and from five values.
  unfoldable pub new_pid : PidParam F → Pid F
  new_pid param = record {
    param = param;
    p_out = zero_float;
    i_out = zero_float;
    d_out = zero_float;
    out = zero_float;
    error0 = zero_float;
    error1 = zero_float;
  }

  unfoldable pub new_pid_of_values : F → F → F → F → F → Pid F
  unfolding new_pid
  new_pid_of_values kp ki kd max_iout max_out =
      new_pid (record { kp = kp; ki = ki; kd = kd; max_iout = max_iout; max_out = max_out })

  -- An array of another length than five is no argument of the constructor.
  unfoldable pub new_pid_of_array : List F → Option (Pid F)
  unfolding new_pid_of_values
  new_pid_of_array (kp ∷ ki ∷ kd ∷ max_iout ∷ max_out ∷ []) =
      some (new_pid_of_values kp ki kd max_iout max_out)
  new_pid_of_array _ = none

  -- `Pid::calc`: the object after the call, and the output.
  unfoldable pub calc : Pid F → F → Pid F × F
  unfolding assign limit_abs
  calc pid err =
      let p_out = pid.kp *ᶠ err in
      let d_out = pid.kd *ᶠ (err -ᶠ pid.error0) in
      let i_out = assign (pid.i_out +ᶠ pid.ki *ᶠ err) (limit_abs pid.max_iout) in
      let out = assign (p_out +ᶠ i_out +ᶠ d_out) (limit_abs pid.max_out) in
      (
        record pid {
          p_out = p_out;
          i_out = i_out;
          d_out = d_out;
          out = out;
          error0 = err;
          error1 = pid.error0;
        },
        out,
      )

instance abbrev pub pid_siso {ℓ} : {F : Type ℓ} ⦃f : Float F⦄ → SisoSys F (Pid F)
pid_siso = record { calc = calc }

module _ {ℓ} {F : Type ℓ} ⦃f : Float F⦄ where
  -- The controller called on one error after another: it at the end, and the outputs.
  unfoldable pub calc_all : Pid F → List F → Pid F × List F
  calc_all pid [] = (pid, [])
  calc_all pid (err ∷ errs) =
      let (next, out) = calc pid err in let (last, outs) = calc_all next errs in (last, out ∷ outs)
