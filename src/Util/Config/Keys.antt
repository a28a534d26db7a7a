-- ===== src/Util/Config/Keys.antt =====
-- `Key` and `operator>` on keys of src/util/util.hpp: the type that a key asks for decides what is read. The
-- types are those that `is_param` admits.
use Prim.Native.String.{String}
use robo_band.Base.{ℕ, zero, suc, List}
use robo_band.Base.Int.{ℤ}
use robo_band.Base.Float.{Float}
use robo_band.Util.Config.{
  Toml, Checked, get_table, get_value, get_array, element_int, element_float, element_string,
}

-- `is_param`.
pub data Param : Type 0 where
  int float string table : Param

-- `Key<T, N>`.
pub record Key : Type 0 where
  pub type_t : Param
  pub type_n : ℕ
  pub key : String

module _ (F T : Type 0) where
  abbrev pub Value : Param → Type 0
  Value int = ℤ
  Value float = F
  Value string = String
  Value table = T

  -- What `operator>` returns for a key; `Key<toml::table, N>` gives a table for every N.
  abbrev pub Result : Param → ℕ → Type 0
  Result table n = T
  Result p zero = Value p
  Result p (suc n) = List (Value p)

module _ {F T N : Type 0} ⦃f : Float F⦄ (toml : Toml F T N) where
  abbrev pub at : T → (p : Param) → (n : ℕ) → String → Checked (Result F T p n)
  at t table n key = get_table toml t key
  at t int zero key = get_value toml toml.value_int t key
  at t float zero key = get_value toml toml.value_float t key
  at t string zero key = get_value toml toml.value_string t key
  at t int (suc n) key = get_array toml (element_int toml) (suc n) t key
  at t float (suc n) key = get_array toml (element_float toml) (suc n) t key
  at t string (suc n) key = get_array toml (element_string toml) (suc n) t key

  -- `table > key`.
  unfoldable pub at_key : T → (key : Key) → Checked (Result F T key.type_t key.type_n)
  at_key t key = at t key.type_t key.type_n key.key
