-- ===== src/Util/Math/Laws.antt =====
-- `abs_limit` is the `limit` of the control systems.
use robo_band.Base.{◌≡◌, refl, false}
use robo_band.Base.Float.{Float, IsOrdered}
use robo_band.Util.Siso.{limit, limit_abs}
use robo_band.Util.Siso.Limits.{limit_bounds}
use robo_band.Util.Pid.Bounds.{Within}
use robo_band.Util.Math.{abs_limit}

module _ {ℓ} {F : Type ℓ} ⦃f : Float F⦄ where
  pub abs_limit-limit_abs : (x lim : F) → abs_limit x lim ≡ limit_abs lim x
  unfolding abs_limit limit_abs
  abs_limit-limit_abs x lim = refl

  pub abs_limit-Within :
      (laws : IsOrdered F) (x lim : F) → f.lt lim (f.neg lim) ≡ false → Within lim (abs_limit x lim)
  unfolding abs_limit limit
  abs_limit-Within laws x lim h = limit_bounds laws (f.neg lim) lim x h

  pub abs_limit-inside : (x lim : F) → Within lim x → abs_limit x lim ≡ x
  unfolding abs_limit
  abs_limit-inside x lim (low, high) = rw (low, high)
