-- ===== src/Io/SystemCalls.antt =====
-- System calls that a constructor makes one after another, giving up at the first that fails: the result
-- that Io/Serial/Open and Io/Socket/Open share, and a loop that describes it.
use robo_band.Base.{ℕ, Option, none, some, List, [], ◌∷◌}

-- The calls that were made, and the code that the process exits with, if it does.
pub record Made {ℓ} (C : Type ℓ) : Type ℓ where
  pub calls : List C
  pub exit_code : Option ℕ

module _ {ℓ} {C : Type ℓ} where
  abbrev pub exits : ℕ → List C → Made C
  exits errno calls = record { calls = calls; exit_code = some errno }

  abbrev pub succeeds : List C → Made C
  succeeds calls = record { calls = calls; exit_code = none }

  -- `errno_of` gives the `errno` of a call that fails.
  abbrev pub try_all : (C → Option ℕ) → List C → Made C
  try_all errno_of [] = succeeds []
  try_all errno_of (call ∷ calls) =
      let rest = try_all errno_of calls in
      elim (errno_of call) [
        | some errno ↦ exits errno (call ∷ [])
        | none ↦ record rest { calls = call ∷ rest.calls }
      ]
