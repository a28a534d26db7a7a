-- ===== src/Io/Serial/Bytes.antt =====
-- `std::string` as bytes and `std::map` from strings: search and comparison.
use robo_band.Base.{
  ℕ, suc, Bool, true, false, Option, none, some, List, [], ◌∷◌, if◌then◌else◌, ltb, ◌==◌, ◌&&◌,
  ◌||◌,
}

unfoldable pub starts_with : List ℕ → List ℕ → Bool
starts_with [] text = true
starts_with (b ∷ head) [] = false
starts_with (b ∷ head) (c ∷ text) = (b == c) && starts_with head text

-- `text.find(head)`; `none` is `npos`.
unfoldable pub find_bytes : List ℕ → List ℕ → Option ℕ
unfolding starts_with
find_bytes head [] = if starts_with head [] then some 0 else none
find_bytes head (c ∷ text) =
    if starts_with head (c ∷ text)
    then some 0
    else elim (find_bytes head text) [ none ↦ none | some pos ↦ some (suc pos) ]

-- The order of `std::string`, and of the keys of a map.
unfoldable pub less : List ℕ → List ℕ → Bool
less [] [] = false
less [] (c ∷ t) = true
less (b ∷ s) [] = false
less (b ∷ s) (c ∷ t) = ltb b c || ((b == c) && less s t)

-- `map[key] = value`; the rows stand in the order of their keys.
unfoldable pub insert_or_assign {ℓ} :
    {V : Type ℓ} → List ℕ → V → List (List ℕ × V) → List (List ℕ × V)
unfolding less
insert_or_assign key value [] = (key, value) ∷ []
insert_or_assign key value ((k, v) ∷ rows) =
    if less key k
    then (key, value) ∷ (k, v) ∷ rows
    else if less k key
    then (k, v) ∷ insert_or_assign key value rows
    else (key, value) ∷ rows
