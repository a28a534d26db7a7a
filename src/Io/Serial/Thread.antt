-- ===== src/Io/Serial/Thread.antt =====
-- The thread of a serial port: `IoNoKey::thread_func` (src/io/io.hpp) with `Serial::read`
-- (src/io/serial.cc), over one sequence of answers of the kernel.
pub mod Chunks
pub mod Reads
pub mod Frames
pub mod Examples
use robo_band.Base.{ℕ, zero, suc, List, replicate}
use robo_band.Io.NoKey.{Unpacker, Served, serve}
use robo_band.Io.Serial.{Serial, Event, waiting, returned, read}

module _ {ℓ} {W : Type ℓ} where
  -- This many rounds of the loop, or fewer, if the answers run out while `read` waits.
  unfoldable pub serial_thread : Serial → List (Unpacker W) → ℕ → List Event → Served W → Served W
  serial_thread s unpackers zero es served = served
  serial_thread s unpackers (suc rounds) es served = elim (read s es (replicate s.buffer_size 0)) [
    | waiting r ↦ record served { buffer = r.buffer }
    | returned n r rest ↦
        serial_thread s unpackers rounds rest
          (serve s.buffer_size unpackers (λ _. (n, r.buffer)) served)
  ]
