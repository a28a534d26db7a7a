-- ===== src/Ctrl/WheelLeggedChassis/Products.antt =====
-- The products of Eigen on whole thousandths, to evaluate the code.
use robo_band.Base.Float.{◌+ᶠ◌, ◌*ᶠ◌}
use robo_band.Base.Float.Milli.{Milli, milli_float}
use robo_band.Ctrl.WheelLeggedChassis.{Vector4, Eigen}

abbrev dot : Vector4 Milli → Vector4 Milli → Milli
dot a b = a.v0 *ᶠ b.v0 +ᶠ a.v1 *ᶠ b.v1 +ᶠ a.v2 *ᶠ b.v2 +ᶠ a.v3 *ᶠ b.v3

abbrev pub milli_eigen : Eigen Milli
milli_eigen = record {
  times2 =
      λ m v. record { v0 = m.m00 *ᶠ v.v0 +ᶠ m.m01 *ᶠ v.v1; v1 = m.m10 *ᶠ v.v0 +ᶠ m.m11 *ᶠ v.v1 };
  times24 = λ m v. record { v0 = dot m.row0 v; v1 = dot m.row1 v };
}
