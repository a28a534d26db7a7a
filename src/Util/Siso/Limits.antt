-- ===== src/Util/Siso/Limits.antt =====
-- `limit` keeps its output between its bounds.
use robo_band.Base.{◌≡◌, false, arith}
use robo_band.Base.Float.{Float, IsOrdered}
use robo_band.Util.Siso.{limit}

module _ {ℓ} {F : Type ℓ} ⦃f : Float F⦄ (laws : IsOrdered F) where
  open laws use {lt_irrefl, lt_trans, lt-numbers, not-lt, le-not-lt}

  -- If the upper bound is not below the lower one, the output is neither below the lower nor above
  -- the upper bound, whatever the input is, a NaN included.
  pub limit_bounds :
      (min max input : F)
      → f.lt max min ≡ false
      → (f.lt (limit min max input) min ≡ false) × (f.lt max (limit min max input) ≡ false)
  unfolding limit
  limit_bounds min max input h = ground (arith, lt_irrefl min, lt_irrefl max)

  -- An input between the bounds passes unchanged.
  pub limit_inside :
      (min max input : F)
      → f.lt input min ≡ false
      → f.lt max input ≡ false
      → limit min max input ≡ input
  unfolding limit
  limit_inside min max input lo hi = rw (lo, hi)

  -- Limiting twice is limiting once.
  pub limit_idem :
      (min max input : F)
      → f.lt max min ≡ false
      → limit min max (limit min max input) ≡ limit min max input
  limit_idem min max input h =
      let b = limit_bounds min max input h in limit_inside min max (limit min max input) b.0 b.1

  -- A NaN passes.
  pub limit_nan : (min max input : F) → f.le input input ≡ false → limit min max input ≡ input
  unfolding limit
  limit_nan min max input nan = ground (arith, lt-numbers input min, lt-numbers max input)
