-- ===== src/Util/Siso.antt =====
-- Single input, single output systems: the operators, `limit` and `rad_format` of
-- src/util/siso.hpp. A system is a `std::function` or an object of a class derived from `SisoSys`,
-- whose call may change the object. The operators take a system by value, so they call a copy.
pub mod Limits
pub mod Operators
pub mod Examples
use robo_band.Base.{ℕ, if◌then◌else◌, Bool}
use robo_band.Base.Float.{Float, ◌+ᶠ◌, ◌-ᶠ◌, ◌*ᶠ◌, zero_float}
use robo_band.Base.Int.{ℤ, pos}

-- `using SisoFunc = std::function<float (float)>`.
abbrev pub SisoFunc {ℓ} : Type ℓ → Type ℓ
SisoFunc F = F → F

-- `is_siso<T>`: a call gives the object as the call leaves it, and the output.
pub record SisoSys {ℓ κ} (F : Type ℓ) (T : Type κ) : Type (ℓ ⊔ κ) where
  pub calc : T → F → T × F

instance abbrev pub func_siso {ℓ} : {F : Type ℓ} → SisoSys F (SisoFunc F)
func_siso = record { calc = λ g input. (g, g input) }

pub record Out {ℓ} (F : Type ℓ) : Type ℓ where
  pub o : F

-- `Out::operator>>(float &next)`: what `next` holds then, and the `Out`.
unfoldable pub store {ℓ} : {F : Type ℓ} → Out F → F → F × Out F
store out next = (out.o, out)

module _ {ℓ κ} {F : Type ℓ} {T : Type κ} ⦃s : SisoSys F T⦄ where
  -- `operator>>(float, T)`. The object of the caller stays as it is: the call changes the copy.
  unfoldable pub feed : F → T → Out F
  feed input siso = record { o = (s.calc siso input).1 }

  -- `operator<<(float &, T)`: the value that the reference holds then.
  unfoldable pub assign : F → T → F
  assign input siso = (s.calc siso input).1

module _ {ℓ κ} {F : Type ℓ} ⦃f : Float F⦄ {T : Type κ} ⦃s : SisoSys F T⦄ where
  -- `operator+(float, T)`.
  unfoldable pub add_left : F → T → SisoFunc F
  add_left sys_out siso = λ input. sys_out +ᶠ (s.calc siso input).1

  -- `operator+(T, float)`.
  unfoldable pub add_right : T → F → SisoFunc F
  unfolding add_left
  add_right siso sys_out = add_left sys_out siso

module _ {ℓ κ μ} {F : Type ℓ} ⦃f : Float F⦄ {T : Type κ} {U : Type μ} ⦃s : SisoSys F T⦄
    ⦃u : SisoSys F U⦄ where
  -- `operator+(T, U)`.
  unfoldable pub add_both : T → U → SisoFunc F
  add_both siso1 siso2 = λ input. (s.calc siso1 input).1 +ᶠ (u.calc siso2 input).1

  -- `operator>>(T, U)`.
  unfoldable pub chain : T → U → SisoFunc F
  unfolding feed
  chain siso1 siso2 = λ input. (feed (feed input siso1).o siso2).o

module _ {ℓ} {F : Type ℓ} ⦃f : Float F⦄ where
  -- `limit(min, max)`.
  unfoldable pub limit : F → F → SisoFunc F
  limit min max = λ input.
      let raised = if f.lt input min then min else input in if f.lt max raised then max else raised

  -- `limit(n)`.
  unfoldable pub limit_abs : F → SisoFunc F
  unfolding limit
  limit_abs n = limit (f.neg n) n

  unfoldable pub rad_format : SisoFunc F
  rad_format input =
      let two_pi = f.of_int (pos 2) *ᶠ f.pi in
      let raised = if f.lt input (f.neg f.pi) then input +ᶠ two_pi else input in
      if f.le f.pi raised then raised -ᶠ two_pi else raised
