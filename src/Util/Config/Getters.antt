-- ===== src/Util/Config/Getters.antt =====
-- When `getArray` succeeds, and what it gives.
use Prim.Native.String.{String}
use robo_band.Base.{
  ℕ, suc, ◌≡◌, ◌↔◌, ◌⊎◌, refl, ap, Option, some, List, [], ◌∷◌, arith, Bool-cases, Option-cases,
  inl, inr, length, ◌==◌, ==_iff,
}
use robo_band.Util.Config.{Toml, Checked, ok, wrong_configuration, convert_all, get_array}

module _ {ℓ κ} {N : Type ℓ} {A : Type κ} (convert : N → Option A) where
  -- Every element converts, to the element of the result at its place.
  pub data Converts : List N → List A → Type (ℓ ⊔ κ) where
    none_left : Converts [] []
    next :
        {elem : N} {a : A} {elems : List N} {xs : List A}
        → convert elem ≡ some a
        → Converts elems xs
        → Converts (elem ∷ elems) (a ∷ xs)

  Converts-length : {elems : List N} {xs : List A} → Converts elems xs → length elems ≡ length xs
  Converts-length none_left = refl
  Converts-length (next e c) = ap suc (Converts-length c)

Checked-cases {ℓ} :
    {A : Type ℓ} (m : Checked A) → (m ≡ wrong_configuration) ⊎ ((a : A) × (m ≡ ok a))
Checked-cases (ok a) = inr (a, refl)
Checked-cases wrong_configuration = inl refl

module _ {ℓ κ} {F T N : Type ℓ} (toml : Toml F T N) {A : Type κ} (convert : N → Option A) where
  convert_all-Converts :
      (elems : List N) (xs : List A)
      → convert_all toml convert elems ≡ ok xs
      → Converts convert elems xs
  unfolding convert_all
  convert_all-Converts [] [] h = none_left
  convert_all-Converts [] (x ∷ xs) h = cc
  convert_all-Converts (elem ∷ elems) [] h = absurd (ground (arith))
  convert_all-Converts (elem ∷ elems) (x ∷ xs) h = elim (Option-cases (convert elem)) [
    | inl e ↦ cc (rw (e, convert_all) at h)
    | inr (a, e) ↦ elim (Checked-cases (convert_all toml convert elems)) [
      | inl e' ↦ absurd (ground arith)
      | inr (rest, e') ↦ next (ground arith) (convert_all-Converts elems xs (ground arith))
    ]
  ]

  Converts-convert_all :
      {elems : List N} {xs : List A}
      → Converts convert elems xs
      → convert_all toml convert elems ≡ ok xs
  unfolding convert_all
  Converts-convert_all none_left = refl
  Converts-convert_all (next e c) = rw (e, Converts-convert_all c)

  get_array-inv :
      (n : ℕ) (t : T) (key : String) (xs : List A)
      → get_array toml convert n t key ≡ ok xs
      → (v : N) × (elems : List N) × (toml.get t key ≡ some v)
        × (toml.as_array v ≡ some elems)
        × (length elems ≡ n)
        × Converts convert elems xs
  unfolding get_array
  get_array-inv n t key xs h = elim (Option-cases (toml.get t key)) [
    | inl e ↦ absurd (ground arith)
    | inr (v, e) ↦ elim (Option-cases (toml.as_array v)) [
      | inl e' ↦ absurd (ground arith)
      | inr (elems, e') ↦ elim (Bool-cases (length elems == n)) [
        | inl same ↦
            (v, elems, e, e', (==_iff _ n).0 same, convert_all-Converts elems xs (ground arith))
        | inr differ ↦ absurd (ground arith)
      ]
    ]
  ]

  -- `getArray` succeeds exactly when the key holds an array of the asked length each of whose
  -- elements converts, and then gives the converted elements in order; in every other case it throws.
  pub get_array_iff :
      (n : ℕ) (t : T) (key : String) (xs : List A)
      → (get_array toml convert n t key ≡ ok xs) ↔ (
          (v : N) × (elems : List N) × (toml.get t key ≡ some v)
          × (toml.as_array v ≡ some elems)
          × (length elems ≡ n)
          × Converts convert elems xs)
  unfolding get_array
  get_array_iff n t key xs =
      (get_array-inv n t key xs, λ (v, elems, g, a, l, c). ground (arith, Converts-convert_all c))
