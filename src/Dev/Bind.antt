-- ===== src/Dev/Bind.antt =====
-- `class Dev` of src/dev/dev.hpp: what the constructors do to the table of unpackers of an IO, or to
-- the updates of the simulator. Log lines
-- are left out, but the result says whether the error of a duplicate key is logged.
pub mod Keys
pub mod Examples
use mathlib.Core.Logic.{ite}
use robo_band.Base.{Bool, true, false, Option, none, some, List, [], ◌∷◌, ◌++◌}
use robo_band.Base.Int.{ℤ}
use robo_band.Io.Key.{find}
use robo_band.Io.NoKey
use robo_band.Io.Webots.{Webots}

module _ {κ ℓ} {K : Type κ} (same : Discrete K) {V : Type ℓ} where
  -- `Dev<IoKey>`: the table after, and whether the key was a duplicate.
  unfoldable pub bind_key : List (K × V) → K → V → List (K × V) × Bool
  bind_key unpackers io_key unpack = elim (find same io_key unpackers) [
    | some _ ↦ (unpackers, true)
    | none ↦ (unpackers ++ ((io_key, unpack) ∷ []), false)
  ]

  -- The constructors of several devices, one after another.
  unfoldable pub bind_keys : List (K × V) → List (K × V) → List (K × V)
  bind_keys unpackers [] = unpackers
  bind_keys unpackers ((io_key, unpack) ∷ devices) =
      bind_keys (bind_key unpackers io_key unpack).0 devices

-- `Dev<IoNoKey>`.
unfoldable pub bind_no_key {ℓ} :
    {W : Type ℓ} → List (NoKey.Unpacker W) → NoKey.Unpacker W → List (NoKey.Unpacker W)
bind_no_key unpackers unpack = unpackers ++ (unpack ∷ [])

-- `Dev<io::Webots>`.
unfoldable pub bind_webots {κ} : {W : Type κ} → Webots W → (ℤ → W → W) → Webots W
bind_webots webots_io update = record webots_io { updaters = webots_io.updaters ++ (update ∷ []) }
