-- ===== src/Base/Float/Crude.antt =====
-- Crude stand-ins for the trigonometric functions, to evaluate the code on whole thousandths: those of a
-- small angle.
use robo_band.Base.Int.{pos}
use robo_band.Base.Float.{◌/ᶠ◌}
use robo_band.Base.Float.Milli.{Milli, milli, milli_float}
use robo_band.Base.Float.Trig.{Trig}

instance abbrev pub crude_trig : Trig Milli
crude_trig = record {
  sin = λ x. x;
  cos = λ x. milli (pos 1000);
  acos = λ x. x;
  sqrt = λ x. x;
  atan2 = λ y x. y /ᶠ x;
}
