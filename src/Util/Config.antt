-- ===== src/Util/Config.antt =====
-- Configuration tables: `mergeConfig`, `getTable`, `getValue`, `getArray` and the operators on keys of
-- src/util/util.hpp and src/util/util.cc. The tables are those of the library toml++, which is a
-- parameter: `Toml` holds its operations that the code calls, `IsToml` what the code relies on.
-- Log lines are left out.
pub mod Merge
pub mod Parity
pub mod Fuel
pub mod Getters
pub mod Keys
pub mod Tree
pub mod Examples
use Prim.Native.String.{String}
use text.Mathlib.Text.{◌==◌ as str_eq}
use mathlib.Core.Option
use robo_band.Base.{
  ℕ, zero, suc, ◌<◌, ◌≡◌, Bool, true, false, Option, none, some, List, [], ◌∷◌, length, ◌==◌,
  if◌then◌else◌,
}
use robo_band.Base.Float.{Float}
use robo_band.Base.Int.{ℤ}

-- What `visit` tells apart in an element of an array.
pub data Scalar {ℓ} (F : Type ℓ) : Type ℓ where
  integer : ℤ → Scalar F
  floating : F → Scalar F
  string : String → Scalar F
  boolean : Bool → Scalar F
  other : Scalar F

-- Tables T and nodes N of toml++, with the floats F.
pub record Toml {ℓ} (F T N : Type ℓ) : Type ℓ where
  -- Iteration over a table.
  pub entries : T → List (String × N)
  -- The node at a key.
  pub get : T → String → Option N
  pub insert_or_assign : T → String → N → T
  pub as_table : N → Option T
  -- The node of a table that was changed in place.
  pub of_table : T → N
  pub as_array : N → Option (List N)
  pub visit : N → Scalar F
  -- `value<T>()`.
  pub value_int : N → Option ℤ
  pub value_float : N → Option F
  pub value_string : N → Option String

-- The result of a function that throws `std::runtime_error("Wrong configuration file.")`.
pub data Checked {ℓ} (A : Type ℓ) : Type ℓ where
  ok : A → Checked A
  wrong_configuration : Checked A

infixl 5 ◌>>=◌
abbrev pub ◌>>=◌ {ℓ κ} : {A : Type ℓ} {B : Type κ} → Checked A → (A → Checked B) → Checked B
ok a >>= f = f a
wrong_configuration >>= f = wrong_configuration

abbrev pub or_throw {ℓ} : {A : Type ℓ} → Option A → Checked A
or_throw (some a) = ok a
or_throw none = wrong_configuration

module _ {ℓ} {F T N : Type ℓ} (toml : Toml F T N) where
  open toml use {
    entries, get, insert_or_assign, as_table, of_table, as_array, value_int, value_float,
    value_string,
  }

  -- `table[key].as_table()`.
  abbrev pub table_at : T → String → Option T
  table_at t key = elim (get t key) [ none ↦ none | some v ↦ as_table v ]

  -- One round of the loop of `mergeConfig`, with the recursive call as an argument. It gives the
  -- user's and the default table as the round leaves them. The recursive call has the default's
  -- subtable in the user's place, and the user's in the default's.
  unfoldable pub merge_entry : (T → T → T × T) → String → N → T → T → T × T
  merge_entry merge key value user default = elim (as_table value) [
    | none ↦ (user, insert_or_assign default key value)
    | some user_table ↦ elim (table_at default key) [
      | none ↦ (user, insert_or_assign default key value)
      | some default_table ↦
          let merged = merge default_table user_table in
          (
            insert_or_assign user key (of_table merged.1),
            insert_or_assign default key (of_table merged.0),
          )
    ]
  ]

  unfoldable pub merge_entries : (T → T → T × T) → List (String × N) → T → T → T × T
  merge_entries merge [] user default = (user, default)
  merge_entries merge ((key, value) ∷ rest) user default =
      let next = merge_entry merge key value user default in merge_entries merge rest next.0 next.1

  -- `mergeConfig`, with fuel for the nesting of the tables; `Config/Fuel` says how much is enough.
  unfoldable pub merge_config : ℕ → T → T → T × T
  merge_config zero user default = (user, default)
  merge_config (suc fuel) user default =
      merge_entries (merge_config fuel) (entries user) user default

  -- `getTable`, which is `table > "key"` too.
  unfoldable pub get_table : T → String → Checked T
  get_table t key = or_throw (table_at t key)

  -- `getValue<A>`, over the `value<A>()` of toml++.
  unfoldable pub get_value {κ} : {A : Type κ} → (N → Option A) → T → String → Checked A
  get_value value t key = or_throw (elim (get t key) [ none ↦ none | some v ↦ value v ])

  -- The loop of `getArray`, over the conversion of one element.
  unfoldable pub convert_all {κ} : {A : Type κ} → (N → Option A) → List N → Checked (List A)
  convert_all convert [] = ok []
  convert_all convert (elem ∷ elems) = do
    a ← or_throw (convert elem)
    rest ← convert_all convert elems
    ok (a ∷ rest)

  unfoldable pub get_array {κ} : {A : Type κ} → (N → Option A) → ℕ → T → String → Checked (List A)
  unfolding convert_all
  get_array convert n t key = do
    elems ← or_throw (elim (get t key) [ none ↦ none | some v ↦ as_array v ])
    if length elems == n then convert_all convert elems else wrong_configuration

  module _ ⦃f : Float F⦄ where
    -- The conversions that `visit` makes in `getArray<int>`, `<float>`, `<std::string>`, `<bool>`.
    unfoldable pub element_int : N → Option ℤ
    element_int elem = elim (toml.visit elem) [
      | integer i ↦ some i
      | floating x ↦ some (f.to_int x)
      | _ ↦ none
    ]

    unfoldable pub element_float : N → Option F
    element_float elem = elim (toml.visit elem) [
      | integer i ↦ some (f.of_int i)
      | floating x ↦ some x
      | _ ↦ none
    ]

  unfoldable pub element_string : N → Option String
  element_string elem = elim (toml.visit elem) [ string s ↦ some s | _ ↦ none ]

  unfoldable pub element_bool : N → Option Bool
  element_bool elem = elim (toml.visit elem) [ boolean b ↦ some b | _ ↦ none ]

-- Looking up a key in the entries of a table.
abbrev pub lookup {ℓ} : {N : Type ℓ} → String → List (String × N) → Option N
lookup k [] = none
lookup k ((j, v) ∷ rest) = if str_eq j k then some v else lookup k rest

abbrev pub Distinct {ℓ} : {N : Type ℓ} → List (String × N) → Type ℓ
Distinct [] = Unit
Distinct ((k, v) ∷ rest) = (lookup k rest ≡ none) × Distinct rest

-- What the code relies on: a table holds each key once, iteration meets its nodes, an insertion or
-- assignment changes one key, and tables are nested to a finite depth.
pub record IsToml {ℓ} {F T N : Type ℓ} (toml : Toml F T N) : Type ℓ where
  pub get-insert_or_assign :
      (t : T) (k j : String) (v : N)
      → toml.get (toml.insert_or_assign t k v) j ≡ (if str_eq k j then some v else toml.get t j)
  pub get-entries : (t : T) (k : String) → toml.get t k ≡ lookup k (toml.entries t)
  pub entries-Distinct : (t : T) → Distinct (toml.entries t)
  pub as_table-of_table : (t : T) → toml.as_table (toml.of_table t) ≡ some t
  pub depth : T → ℕ
  pub depth-get :
      (t : T) (k : String) (v : N) (s : T)
      → toml.get t k ≡ some v
      → toml.as_table v ≡ some s
      → depth s < depth t
