-- ===== src/Virtual/Pointer.antt =====
-- Pointers to floats: to memory that an object allocated for itself, or to a member of a device.
use robo_band.Base.{ℕ}

pub data Pointer : Type 0 where
  owned : ℕ → Pointer
  member : ℕ → Pointer
