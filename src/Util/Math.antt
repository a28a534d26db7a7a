-- ===== src/Util/Math.antt =====
-- `abs_limit` and `abs` of src/util/util.hpp, at the type of floats.
pub mod Laws
use robo_band.Base.{if◌then◌else◌}
use robo_band.Base.Float.{Float, zero_float}

module _ {ℓ} {F : Type ℓ} ⦃f : Float F⦄ where
  unfoldable pub abs_limit : F → F → F
  abs_limit x lim =
      let raised = if f.lt x (f.neg lim) then f.neg lim else x in
      if f.lt lim raised then lim else raised

  unfoldable pub abs : F → F
  abs x = if f.lt x zero_float then f.neg x else x
