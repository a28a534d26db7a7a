-- ===== src/Util/Config/Merge.antt =====
-- What `mergeConfig` leaves at each key of the two tables.
use Prim.Native.String.{String}
use text.Mathlib.Text.{◌==◌ as str_eq}
use text.Mathlib.TextEquality.{eq_iff}
use text.Mathlib.TextPositions.{eq_refl}
use robo_band.Base.{
  ℕ, suc, ◌≡◌, ◌∙◌, refl, false, Option, none, some, List, [], ◌∷◌, arith, Bool-cases, Option-cases,
  inl, inr,
}
use robo_band.Util.Config.{Toml, IsToml, merge_entry, merge_entries, merge_config, lookup, Distinct}

module _ {ℓ} {F T N : Type ℓ} (toml : Toml F T N) where
  open toml use {entries, get, insert_or_assign, as_table, of_table}

  -- The nodes at a key after the merge, from those before it: the user's first, then the default's.
  abbrev pub merged_node : (T → T → T × T) → Option N → Option N → Option N × Option N
  merged_node merge none old = (none, old)
  merged_node merge (some v) old = elim (as_table v) [
    | none ↦ (some v, some v)
    | some user_table ↦ elim old [
      | none ↦ (some v, some v)
      | some w ↦ elim (as_table w) [
        | none ↦ (some v, some v)
        | some default_table ↦
            let merged = merge default_table user_table in
            (some (of_table merged.1), some (of_table merged.0))
      ]
    ]
  ]

  module _ (laws : IsToml toml) where
    open laws use {get-insert_or_assign, get-entries, entries-Distinct}

    pub get-insert_self : (t : T) (k : String) (v : N) → get (insert_or_assign t k v) k ≡ some v
    get-insert_self t k v = rw (get-insert_or_assign t k k v, eq_refl k)

    pub get-insert_ne :
        (t : T) (k j : String) (v : N)
        → str_eq k j ≡ false
        → get (insert_or_assign t k v) j ≡ get t j
    get-insert_ne t k j v h = rw (get-insert_or_assign t k j v, h)

    -- A round changes its own key, to the merged nodes.
    merge_entry_self :
        (merge : T → T → T × T) (k : String) (v : N) (user default : T)
        → get user k ≡ some v
        → let after = merge_entry toml merge k v user default in
          (get after.0 k, get after.1 k) ≡ merged_node merge (some v) (get default k)
    unfolding merge_entry
    merge_entry_self merge k v user default h = grind (arith, get-insert_self)

    pub merge_entry_other :
        (merge : T → T → T × T) (k j : String) (v : N) (user default : T)
        → str_eq k j ≡ false
        → let after = merge_entry toml merge k v user default in
          (get after.0 j ≡ get user j) × (get after.1 j ≡ get default j)
    unfolding merge_entry
    merge_entry_other merge k j v user default h = grind (arith, get-insert_ne)

    -- The entries of a list are nodes of a table.
    abbrev AreIn : List (String × N) → T → Type ℓ
    AreIn es t = (i : String) (w : N) → lookup i es ≡ some w → get t i ≡ some w

    AreIn-head :
        (j : String) (v : N) (es : List (String × N)) (t : T)
        → AreIn ((j, v) ∷ es) t
        → get t j ≡ some v
    AreIn-head j v es t h = h j v (rw (eq_refl j))

    AreIn-rest :
        (merge : T → T → T × T) (j : String) (v : N) (es : List (String × N)) (user default : T)
        → lookup j es ≡ none
        → AreIn ((j, v) ∷ es) user
        → AreIn es (merge_entry toml merge j v user default).0
    AreIn-rest merge j v es user default fresh h i w e = elim (Bool-cases (str_eq j i)) [
      | inl same ↦ absurd (cc ((eq_iff j i).0 same))
      | inr differ ↦ (merge_entry_other merge j i v user default differ).0 ∙ h i w (rw differ e)
    ]

    abbrev merged_entry : (T → T → T × T) → Option N → Option N → Option N → Option N × Option N
    merged_entry merge none mine old = (mine, old)
    merged_entry merge (some v) mine old = merged_node merge (some v) old

    -- The loop leaves the merged nodes at every key of its entries, and every other key alone.
    merge_entries_lem :
        (merge : T → T → T × T) (es : List (String × N)) (user default : T) (k : String)
        → Distinct es
        → AreIn es user
        → let after = merge_entries toml merge es user default in
          (get after.0 k, get after.1 k)
          ≡ merged_entry merge (lookup k es) (get user k) (get default k)
    unfolding merge_entries
    merge_entries_lem merge [] user default k d h = refl
    merge_entries_lem merge ((j, v) ∷ es) user default k (fresh, d) h =
        let next = merge_entry toml merge j v user default in
        let rest = λ (i : String).
          merge_entries_lem merge es next.0 next.1 i d
            (AreIn-rest merge j v es user default fresh h) in
        elim (Bool-cases (str_eq j k)) [
          | inl same ↦
              rw (← (eq_iff j k).0 same, eq_refl j)
                (rw fresh at (rest j)
                  ∙ merge_entry_self merge j v user default (AreIn-head j v es user h))
          | inr differ ↦
              let other = merge_entry_other merge j k v user default differ in
              rw differ (rw (other.0, other.1) at (rest k))
        ]

    -- Both tables at any key after `mergeConfig`, by the nodes before it.
    pub merge_config_lem :
        (fuel : ℕ) (user default : T) (k : String)
        → let after = merge_config toml (suc fuel) user default in
          (get after.0 k, get after.1 k)
          ≡ merged_node (merge_config toml fuel) (get user k) (get default k)
    unfolding merge_config
    merge_config_lem fuel user default k =
        merge_entries_lem (merge_config toml fuel) (entries user) user default k
          (entries-Distinct user) (λ i w e. get-entries user i ∙ e)
        ∙ rw (← get-entries user k)
            (elim (Option-cases (get user k)) [ inl e ↦ rw e refl | inr (v, e) ↦ rw e refl ])
