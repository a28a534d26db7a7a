-- ===== src/Dev/Bind/Examples.antt =====
-- Devices on the keys 5 and 7, with a duplicate.
use robo_band.Base.{ℕ, ◌≡◌, refl, some, List, [], ◌∷◌}
use native.Mathlib.Decide.{ℕ_discrete}
use robo_band.Io.Key.{find}
use robo_band.Dev.Bind.{bind_key, bind_keys}

abbrev devices : List (ℕ × ℕ)
devices = (5, 100) ∷ (7, 200) ∷ (5, 300) ∷ []

abbrev empty : List (ℕ × ℕ)
empty = []

-- The second device with the key 5 is not bound.
bound : find ℕ_discrete 5 (bind_keys ℕ_discrete empty devices) ≡ some 100
unfolding bind_keys bind_key find ℕ_discrete
bound = refl
