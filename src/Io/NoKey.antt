-- ===== src/Io/NoKey.antt =====
-- `class IoNoKey` of src/io/io.hpp: reads that carry no key are offered to the unpackers in the order in
-- which they were registered, until one takes them. W is the state that the unpackers change.
pub mod Offers
pub mod Examples
use robo_band.Base.{
  ℕ, ◌+◌, Bool, true, false, Option, none, some, List, [], ◌∷◌, if◌then◌else◌, replicate,
}
use robo_band.Base.Int.{ℤ, pos, ltb_ℤ}

abbrev pub Unpacker {ℓ} : Type ℓ → Type ℓ
Unpacker W = List ℕ → ℤ → W → W × Bool

-- One call of `read`: the length that it returns and what it makes of the buffer.
abbrev pub Read : Type 0
Read = List ℕ → ℤ × List ℕ

-- The unpackers' state, how often the warning of an unmatched message was logged, and the buffer.
pub record Served {ℓ} (W : Type ℓ) : Type ℓ where
  pub world : W
  pub warnings : ℕ
  pub buffer : List ℕ

module _ {ℓ} {W : Type ℓ} where
  -- The loop over the unpackers.
  unfoldable pub offer : List (Unpacker W) → List ℕ → ℤ → W → W × Bool
  offer [] buffer len w = (w, false)
  offer (unpacker ∷ unpackers) buffer len w =
      let after = unpacker buffer len w in
      elim after.1 [ true ↦ (after.0, true) | false ↦ offer unpackers buffer len after.0 ]

  -- The body of the loop in `thread_func`.
  unfoldable pub serve : ℕ → List (Unpacker W) → Read → Served W → Served W
  serve buffer_size unpackers read s =
      let (len, buffer) = read (replicate buffer_size 0) in
      if ltb_ℤ (pos 0) len
      then (let (world, is_unpacked) = offer unpackers buffer len s.world in
          record {
            world = world;
            warnings = if is_unpacked then s.warnings else s.warnings + 1;
            buffer = buffer;
          })
      else record s { buffer = buffer }

  -- `thread_func` over the reads that it makes while `running` is true.
  unfoldable pub thread_func : ℕ → List (Unpacker W) → List Read → Served W → Served W
  thread_func buffer_size unpackers [] s = s
  thread_func buffer_size unpackers (read ∷ reads) s =
      thread_func buffer_size unpackers reads (serve buffer_size unpackers read s)
