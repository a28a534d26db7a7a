-- ===== src/Util/Config/Examples.antt =====
-- A user's configuration merged into a default one, on nested association lists.
use robo_band.Base.{◌≡◌, refl, [], ◌∷◌, some, inl, arith, ℕ}
use robo_band.Base.Int.{pos}
use robo_band.Base.Float.Milli.{milli_float}
use robo_band.Util.Config.{
  integer, merge_config, merge_entries, merge_entry, get_array, ok, wrong_configuration,
  element_int,
}
use robo_band.Util.Config.Tree.{
  Rows, Node, end, row, leaf, table, array, nil, elem, tree_toml, tree_toml-IsToml,
}
use robo_band.Util.Config.Parity.{node_at, merge_config_parity}
use robo_band.Util.Config.Fuel.{merge_config_fuel}

abbrev num : ℕ → Node
num n = leaf (integer (pos n))

-- speed = s, [io] port = p, [ctrl.chassis] cycle = c
abbrev config : ℕ → ℕ → ℕ → Rows
config s p c = row "speed" (num s) (
    row "io" (table (row "port" (num p) end))
      (row "ctrl" (table (row "chassis" (table (row "cycle" (num c) end)) end)) end))

abbrev merged : Rows
merged = (merge_config tree_toml 4 (config 1 2 3) (config 10 20 30)).1

-- The user's port is lost.
merged_config :
    (node_at tree_toml merged "speed" [] ≡ some (num 1))
    × (node_at tree_toml merged "io" ("port" ∷ []) ≡ some (num 20))
    × (node_at tree_toml merged "ctrl" ("chassis" ∷ "cycle" ∷ []) ≡ some (num 3))
unfolding tree_toml merge_config merge_entries merge_entry node_at
merged_config = (refl, refl, refl)

merge_config_parity_example : node_at tree_toml merged "io" ("port" ∷ []) ≡ some (num 20)
unfolding tree_toml node_at
merge_config_parity_example =
    merge_config_parity tree_toml tree_toml-IsToml (config 1 2 3) (config 10 20 30) "io"
      ("port" ∷ []) 4 (num 2) (num 20) (omega arith) refl refl refl refl

merge_config_fuel_example :
    merge_config tree_toml 4 (config 1 2 3) (config 10 20 30)
    ≡ merge_config tree_toml 9 (config 1 2 3) (config 10 20 30)
unfolding tree_toml tree_toml-IsToml
merge_config_fuel_example =
    merge_config_fuel tree_toml tree_toml-IsToml 4 9 (config 1 2 3) (config 10 20 30)
      (inl (omega arith)) (inl (omega arith))

abbrev arrays : Rows
arrays = row "dir" (array (elem (num 1) (elem (num 2) nil))) end

arrays_read :
    (get_array tree_toml (element_int tree_toml) 2 arrays "dir" ≡ ok (pos 1 ∷ pos 2 ∷ []))
    × (get_array tree_toml (element_int tree_toml) 3 arrays "dir" ≡ wrong_configuration)
unfolding tree_toml get_array element_int
arrays_read = (refl, refl)
