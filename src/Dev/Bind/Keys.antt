-- ===== src/Dev/Bind/Keys.antt =====
-- The first device bound to a key keeps it.
use mathlib.Core.Logic.{ite}
use robo_band.Base.{
  ◌≡◌, refl, Option, none, some, List, [], ◌∷◌, ◌++◌, arith, Option-cases, inl, inr,
}
use robo_band.Io.Key.{find}
use robo_band.Dev.Bind.{bind_key, bind_keys}

-- The first of two answers.
abbrev pub or_else {ℓ} : {V : Type ℓ} → Option V → Option V → Option V
or_else none b = b
or_else (some a) b = some a

module _ {K V : Type 0} (same : Discrete K) where
  find-append :
      (k : K) (xs ys : List (K × V))
      → find same k (xs ++ ys) ≡ or_else (find same k xs) (find same k ys)
  unfolding find
  find-append k [] ys = refl
  find-append k ((j, v) ∷ xs) ys = ground (arith, find-append k xs ys)

  find-bind_key :
      (unpackers : List (K × V)) (j k : K) (v : V)
      → find same k (bind_key same unpackers j v).0
        ≡ or_else (find same k unpackers) (ite (same j k) (some v) none)
  unfolding bind_key find
  find-bind_key unpackers j k v = elim (Option-cases (find same j unpackers)) [
    | inl e ↦ rw (e, bind_key) (find-append k unpackers ((j, v) ∷ []))
    | inr (u, e) ↦ ground arith
  ]

  -- After any number of devices were constructed on a table of unpackers, a key has the unpacker that
  -- it had before, or else that of the first of those devices with this key.
  pub find-bind_keys :
      (unpackers devices : List (K × V)) (k : K)
      → find same k (bind_keys same unpackers devices)
        ≡ or_else (find same k unpackers) (find same k devices)
  unfolding bind_keys find
  find-bind_keys unpackers [] k = ground arith
  find-bind_keys unpackers ((j, v) ∷ devices) k = ground (
    arith,
    find-bind_keys (bind_key same unpackers j v).0 devices k,
    find-bind_key unpackers j k v,
  )
