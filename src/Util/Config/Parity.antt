-- ===== src/Util/Config/Parity.antt =====
-- Which of two values a configuration has after `mergeConfig`, by the depth of its key.
use Prim.Native.String.{String}
use robo_band.Base.{
  ℕ, zero, suc, ◌<◌, ◌%◌, ◌≡◌, ◌∙◌, ap, Option, none, some, List, [], ◌∷◌, arith, if◌then◌else◌,
  Option-cases, inl, inr, length, ◌==◌,
}
use robo_band.Util.Config.{Toml, IsToml, table_at, merge_config}
use robo_band.Util.Config.Merge.{merge_config_lem}

module _ {ℓ} {F T N : Type ℓ} (toml : Toml F T N) where
  open toml use {get, as_table, of_table}

  -- The node at a dotted key `k.ks`.
  unfoldable pub node_at : T → String → List String → Option N
  node_at t k [] = get t k
  node_at t k (j ∷ ks) = elim (table_at toml t k) [ none ↦ none | some s ↦ node_at s j ks ]

  -- A value that is no table.
  abbrev pub IsLeaf : N → Type ℓ
  IsLeaf v = as_table v ≡ none

  abbrev pub winner : List String → N → N → N
  winner ks mine old = if length ks % 2 == 0 then mine else old

  winner_swap : (j : String) (ks : List String) (v w : N) → winner ks w v ≡ winner (j ∷ ks) v w
  winner_swap j ks v w = ground arith

  -- A node below a key is below the table at that key.
  node_at-split :
      (t : T) (k j : String) (ks : List String) (v : N)
      → node_at t k (j ∷ ks) ≡ some v
      → (w : N) × (s : T) × (get t k ≡ some w) × (as_table w ≡ some s) × (node_at s j ks ≡ some v)
  unfolding node_at
  node_at-split t k j ks v h = elim (Option-cases (get t k)) [
    | inl e ↦ cc (rw (e, node_at) at h)
    | inr (w, e) ↦
        let h' = rw (e, node_at) at h in
        elim (Option-cases (as_table w)) [
          | inl e' ↦ cc (rw (e', node_at) at h')
          | inr (s, e') ↦ (w, s, e, e', rw (e', node_at) at h')
        ]
  ]

  module _ (laws : IsToml toml) where
    node_at-of_table :
        (t s : T) (k j : String) (ks : List String)
        → get t k ≡ some (of_table s)
        → node_at t k (j ∷ ks) ≡ node_at s j ks
    unfolding node_at
    node_at-of_table t s k j ks h = rw (h, node_at, laws.as_table-of_table s)

    merge_both_tables :
        (fuel : ℕ) (user default : T) (k : String) (v w : N) (user_table default_table : T)
        → get user k ≡ some v
        → get default k ≡ some w
        → as_table v ≡ some user_table
        → as_table w ≡ some default_table
        → let merged = merge_config toml fuel default_table user_table in
          let after = merge_config toml (suc fuel) user default in
          (get after.0 k ≡ some (of_table merged.1)) × (get after.1 k ≡ some (of_table merged.0))
    merge_both_tables fuel user default k v w ut dt hv hw hut hdt =
        ground (arith, merge_config_lem toml laws fuel user default k)

    winner_lem :
        (ks : List String) (fuel : ℕ) (user default : T) (k : String) (v w : N)
        → length ks < fuel
        → node_at user k ks ≡ some v
        → node_at default k ks ≡ some w
        → IsLeaf v
        → IsLeaf w
        → let after = merge_config toml fuel user default in
          (node_at after.0 k ks ≡ some (winner ks v w))
          × (node_at after.1 k ks ≡ some (winner ks v w))
    unfolding node_at
    winner_lem ks zero user default k v w h hv hw lv lw = absurd (omega arith)
    winner_lem [] (suc fuel) user default k v w h hv hw lv lw =
        ground (arith, merge_config_lem toml laws fuel user default k)
    winner_lem (j ∷ ks) (suc fuel) user default k v w h hv hw lv lw =
        let (v', ut, gv, tv, nv) = node_at-split user k j ks v hv in
        let (w', dt, gw, tw, nw) = node_at-split default k j ks w hw in
        let (first, second) = merge_both_tables fuel user default k v' w' ut dt gv gw tv tw in
        let (ih₀, ih₁) = winner_lem ks fuel dt ut j w v (omega arith) nw nv lw lv in
        (
          node_at-of_table _ _ k j ks first ∙ ih₁ ∙ ap some (winner_swap j ks v w),
          node_at-of_table _ _ k j ks second ∙ ih₀ ∙ ap some (winner_swap j ks v w),
        )

    -- For tables with the laws that are relied on: if the user's and the default configuration both
    -- set a dotted key, to values that are no tables, then after `mergeConfig` the configuration
    -- has the user's value where the key has an odd number of parts, and keeps the default where it
    -- has an even number: the user's setting is then lost. Fuel above the number of dots is enough.
    pub merge_config_parity :
        (user default : T) (k : String) (ks : List String) (fuel : ℕ) (v w : N)
        → length ks < fuel
        → node_at user k ks ≡ some v
        → node_at default k ks ≡ some w
        → IsLeaf v
        → IsLeaf w
        → node_at (merge_config toml fuel user default).1 k ks
          ≡ some (if length ks % 2 == 0 then v else w)
    merge_config_parity user default k ks fuel v w h hv hw lv lw =
        (winner_lem ks fuel user default k v w h hv hw lv lw).1
