-- ===== src/Io/Key.antt =====
-- `class IoKey` of src/io/io.hpp: reads that carry a key, dispatched to the unpacker bound to the key.
-- K are the keys, decided as `std::map` does, and W is the state that the unpackers change.
pub mod Dispatch
pub mod Examples
use mathlib.Core.Logic.{ite}
use robo_band.Base.{ℕ, ◌+◌, Bool, Option, none, some, List, [], ◌∷◌, if◌then◌else◌}
use robo_band.Base.Int.{ℤ, pos, ltb_ℤ}

abbrev pub Unpacker {ℓ} : Type ℓ → Type ℓ
Unpacker W = List ℕ → ℤ → W → W

-- What one call of `read` leaves: the key, the length and the buffer.
pub record Received {κ} (K : Type κ) : Type κ where
  pub key : K
  pub len : ℤ
  pub buffer : List ℕ

-- The unpackers' state, and how often the warning of an unbound key was logged.
pub record Served {ℓ} (W : Type ℓ) : Type ℓ where
  pub world : W
  pub warnings : ℕ

module _ {κ} {K : Type κ} (same : Discrete K) where
  unfoldable pub find {ℓ} : {V : Type ℓ} → K → List (K × V) → Option V
  find k [] = none
  find k ((j, v) ∷ rest) = ite (same j k) (some v) (find k rest)

  module _ {ℓ} {W : Type ℓ} (unpackers : List (K × Unpacker W)) where
    -- The body of the loop in `thread_func`, after `read`.
    unfoldable pub dispatch : Received K → Served W → Served W
    dispatch r s =
        if ltb_ℤ (pos 0) r.len
        then elim (find r.key unpackers) [
          | none ↦ record s { warnings = s.warnings + 1 }
          | some unpacker ↦ record s { world = unpacker r.buffer r.len s.world }
        ]
        else s

    -- `thread_func` over the reads that it makes while `running` is true.
    unfoldable pub thread_func : List (Received K) → Served W → Served W
    thread_func [] s = s
    thread_func (r ∷ rs) s = thread_func rs (dispatch r s)
