-- ===== src/Base/Float/Milli.antt =====
-- A type of floats to evaluate the code on: whole thousandths, and a NaN. It meets the order laws.
use robo_band.Base.{◌*◌, ◌/◌, Bool, true, false, arith}
use robo_band.Base.Int.{ℤ, pos, ◌+ℤ◌, ◌-ℤ◌, ◌*ℤ◌, ◌/ℤ◌, neg_ℤ, ltb_ℤ, leb_ℤ, eqb_ℤ}
use robo_band.Base.Float.{Float, IsOrdered}

pub data Milli : Type 0 where
  nan : Milli
  milli : ℤ → Milli

abbrev on_numbers : (ℤ → ℤ → ℤ) → Milli → Milli → Milli
on_numbers g (milli a) (milli b) = milli (g a b)
on_numbers g _ _ = nan

abbrev test : (ℤ → ℤ → Bool) → Milli → Milli → Bool
test g (milli a) (milli b) = g a b
test g _ _ = false

abbrev negate : Milli → Milli
negate nan = nan
negate (milli a) = milli (neg_ℤ a)

abbrev truncate : Milli → ℤ
truncate nan = pos 0
truncate (milli a) = a /ℤ pos 1000

-- A quotient by zero is a NaN here; only tests divide.
abbrev quotient : Milli → Milli → Milli
quotient (milli a) (milli b) = elim (eqb_ℤ b (pos 0)) [
  | true ↦ nan
  | false ↦ milli ((a *ℤ pos 1000) /ℤ b)
]
quotient _ _ = nan

instance abbrev pub milli_float : Float Milli
milli_float = record {
  lit = λ n d. milli (pos (n * 1000 / d));
  of_int = λ a. milli (a *ℤ pos 1000);
  to_int = truncate;
  pi = milli (pos 3142);
  neg = negate;
  add = on_numbers ◌+ℤ◌;
  sub = on_numbers ◌-ℤ◌;
  mul = on_numbers (λ a b. (a *ℤ b) /ℤ pos 1000);
  div = quotient;
  lt = test ltb_ℤ;
  le = test leb_ℤ;
}

pub Milli-IsOrdered : IsOrdered Milli
Milli-IsOrdered = record {
  lt_irrefl = ground arith;
  lt-numbers = ground arith;
  lt_trans = ground arith;
  not-lt = ground arith;
  le-not-lt = ground arith;
}
