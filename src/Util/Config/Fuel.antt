-- ===== src/Util/Config/Fuel.antt =====
-- How much fuel `merge_config` needs: the nesting of either table, and one more.
use Prim.Native.String.{String}
use text.Mathlib.Text.{◌==◌ as str_eq}
use text.Mathlib.TextEquality.{eq_iff}
use text.Mathlib.TextPositions.{eq_refl}
use robo_band.Base.{
  ℕ, zero, suc, ◌<◌, ◌≡◌, ◌∙◌, ◌⊎◌, refl, none, some, List, [], ◌∷◌, arith, Bool-cases,
  Option-cases, inl, inr,
}
use robo_band.Util.Config.{
  Toml, IsToml, table_at, merge_entry, merge_entries, merge_config, lookup, Distinct,
}
use robo_band.Util.Config.Merge.{merge_entry_other}

module _ {ℓ} {F T N : Type ℓ} (toml : Toml F T N) (laws : IsToml toml) where
  open toml use {entries, get, as_table}
  open laws use {depth, depth-get, get-entries, entries-Distinct}

  -- Two ways to merge agree on the subtables that the loop meets.
  abbrev Agree : (T → T → T × T) → (T → T → T × T) → List (String × N) → T → Type ℓ
  Agree m₁ m₂ es default =
      (i : String) (w : N) (s d : T)
      → lookup i es ≡ some w
      → as_table w ≡ some s
      → table_at toml default i ≡ some d
      → m₁ d s ≡ m₂ d s

  merge_entry_congr :
      (m₁ m₂ : T → T → T × T) (k : String) (v : N) (user default : T)
      → ((s d : T) → as_table v ≡ some s → table_at toml default k ≡ some d → m₁ d s ≡ m₂ d s)
      → merge_entry toml m₁ k v user default ≡ merge_entry toml m₂ k v user default
  unfolding merge_entry
  merge_entry_congr m₁ m₂ k v user default agree = elim (Option-cases (as_table v)) [
    | inl e ↦ rw (e, merge_entry)
    | inr (s, e) ↦ elim (Option-cases (table_at toml default k)) [
      | inl e' ↦ ground arith
      | inr (d, e') ↦ ground (arith, agree s d e e')
    ]
  ]

  Agree-rest :
      (m₁ m₂ : T → T → T × T) (k : String) (v : N) (es : List (String × N)) (user default : T)
      → lookup k es ≡ none
      → Agree m₁ m₂ ((k, v) ∷ es) default
      → Agree m₁ m₂ es (merge_entry toml m₂ k v user default).1
  Agree-rest m₁ m₂ k v es user default fresh agree i w s d e es' ed =
      elim (Bool-cases (str_eq k i)) [
        | inl same ↦ absurd (cc ((eq_iff k i).0 same))
        | inr differ ↦
            let other = (merge_entry_other toml laws m₂ k i v user default differ).1 in
            agree i w s d (rw differ e) es' (rw (other, table_at) at ed)
      ]

  merge_entries_congr :
      (m₁ m₂ : T → T → T × T) (es : List (String × N)) (user default : T)
      → Distinct es
      → Agree m₁ m₂ es default
      → merge_entries toml m₁ es user default ≡ merge_entries toml m₂ es user default
  unfolding merge_entries
  merge_entries_congr m₁ m₂ [] user default d agree = refl
  merge_entries_congr m₁ m₂ ((k, v) ∷ es) user default (fresh, d) agree =
      let here = merge_entry_congr m₁ m₂ k v user default (λ s t. agree k v s t (rw (eq_refl k))) in
      let next = merge_entry toml m₂ k v user default in
      rw here (
        merge_entries_congr m₁ m₂ es next.0 next.1 d
          (Agree-rest m₁ m₂ k v es user default fresh agree))

  abbrev pub IsEnough : ℕ → T → T → Type 0
  IsEnough fuel user default = (depth user < fuel) ⊎ (depth default < fuel)

  table_at-split :
      (t : T) (k : String) (s : T)
      → table_at toml t k ≡ some s
      → (w : N) × (get t k ≡ some w) × (as_table w ≡ some s)
  table_at-split t k s h = ground arith

  IsEnough-below :
      (fuel : ℕ) (user default : T) (k : String) (w : N) (s d : T)
      → IsEnough (suc fuel) user default
      → lookup k (entries user) ≡ some w
      → as_table w ≡ some s
      → table_at toml default k ≡ some d
      → IsEnough fuel d s
  IsEnough-below fuel user default k w s d (inl h) e es ed =
      inr (omega (arith, depth-get user k w s (get-entries user k ∙ e) es))
  IsEnough-below fuel user default k w s d (inr h) e es ed =
      let (x, gx, tx) = table_at-split default k d ed in
      inl (omega (arith, depth-get default k x d gx tx))

  -- For tables with the laws that are relied on: any two amounts of fuel above the nesting of one
  -- of the tables give the same two tables, so with that much `merge_config` is the recursion of
  -- the source, which then ends by itself.
  pub merge_config_fuel :
      (fuel more : ℕ) (user default : T)
      → IsEnough fuel user default
      → IsEnough more user default
      → merge_config toml fuel user default ≡ merge_config toml more user default
  unfolding merge_config
  merge_config_fuel zero more user default h k = absurd (omega arith)
  merge_config_fuel (suc fuel) zero user default h k = absurd (omega arith)
  merge_config_fuel (suc fuel) (suc more) user default h k =
      merge_entries_congr (merge_config toml fuel) (merge_config toml more) (entries user) user
        default (entries-Distinct user)
        λ i w s d e es ed.
          merge_config_fuel fuel more d s (IsEnough-below fuel user default i w s d h e es ed)
            (IsEnough-below more user default i w s d k e es ed)
