-- ===== src/Base/Float.antt =====
-- What the source does with a `float`: the arithmetic, the comparisons, literals, and conversions from
-- and to integers. The code is modelled over any type with these operations; `IsOrdered` states what some
-- theorems assume of them.
pub mod Milli
pub mod Trig
pub mod Crude
use robo_band.Base.{ℕ, ◌≡◌, Bool, true, false}
use robo_band.Base.Int.{ℤ, pos}

pub record Float {ℓ} (F : Type ℓ) : Type ℓ where
  -- The literal n / d, such as 0.25f for 25 and 100.
  pub lit : ℕ → ℕ → F
  pub of_int : ℤ → F
  -- `static_cast` to an integer type, of a value that this type can hold.
  pub to_int : F → ℤ
  pub pi : F
  pub neg : F → F
  pub add : F → F → F
  pub sub : F → F → F
  pub mul : F → F → F
  pub div : F → F → F
  pub lt : F → F → Bool
  pub le : F → F → Bool

module _ {ℓ} {F : Type ℓ} ⦃f : Float F⦄ where
  infixl 65 ◌+ᶠ◌ ◌-ᶠ◌
  infixl 70 ◌*ᶠ◌ ◌/ᶠ◌
  abbrev pub ◌+ᶠ◌ : F → F → F
  ◌+ᶠ◌ = f.add

  abbrev pub ◌-ᶠ◌ : F → F → F
  ◌-ᶠ◌ = f.sub

  abbrev pub ◌*ᶠ◌ : F → F → F
  ◌*ᶠ◌ = f.mul

  abbrev pub ◌/ᶠ◌ : F → F → F
  ◌/ᶠ◌ = f.div

-- The literal 0.0f.
abbrev pub zero_float {ℓ} : {F : Type ℓ} ⦃f : Float F⦄ → F
zero_float ⦃f⦄ = f.of_int (pos 0)

-- A NaN is the value that is not `<=` itself.
abbrev pub IsNumber {ℓ} : {F : Type ℓ} ⦃f : Float F⦄ → F → Type 0
IsNumber ⦃f⦄ x = f.le x x ≡ true

-- The comparisons of IEEE 754: no comparison with a NaN holds, and the others order the numbers.
pub record IsOrdered {ℓ} (F : Type ℓ) ⦃f : Float F⦄ : Type ℓ where
  pub lt_irrefl : (x : F) → f.lt x x ≡ false
  pub lt-numbers : (x y : F) → f.lt x y ≡ true → IsNumber x × IsNumber y
  pub lt_trans : (x y z : F) → f.lt x y ≡ true → f.lt y z ≡ true → f.lt x z ≡ true
  pub not-lt : (x y : F) → IsNumber x → IsNumber y → f.lt x y ≡ false → f.le y x ≡ true
  pub le-not-lt : (x y : F) → f.le x y ≡ true → f.lt y x ≡ false
