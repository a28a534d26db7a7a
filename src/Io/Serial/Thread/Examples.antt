-- ===== src/Io/Serial/Thread/Examples.antt =====
-- Two frames of four bytes on one port, the second one in two chunks.
use robo_band.Base.{ℕ, ◌≡◌, refl, true, List, [], ◌∷◌, map, arith}
use robo_band.Base.Int.{pos}
use robo_band.Io.NoKey.{Unpacker, Served, thread_func}
use robo_band.Io.Serial.{Serial, Event, got, ready, timeout}
use robo_band.Io.Serial.Bytes.{starts_with}
use robo_band.Io.Serial.Thread.{serial_thread}
use robo_band.Io.Serial.Thread.Frames.{whole_read, serial_thread-frames}

abbrev port : Serial
port = record {
  buffer_size = 4;
  head_tails = (9 ∷ 8 ∷ [], []) ∷ [];
  timeout_inline = record { tv_sec = pos 0; tv_nsec = pos 0 };
  timeout_wait = record { tv_sec = pos 0; tv_nsec = pos 0 };
}

-- An unpacker that keeps the messages.
abbrev keeps : Unpacker (List (List ℕ))
keeps buffer len w = (buffer ∷ w, true)

abbrev frames : List (List ℕ)
frames = (9 ∷ 8 ∷ 1 ∷ 2 ∷ []) ∷ (9 ∷ 8 ∷ 3 ∷ 4 ∷ []) ∷ []

abbrev events : List Event
events = got (9 ∷ 8 ∷ 1 ∷ 2 ∷ []) ∷ timeout ∷ got (9 ∷ []) ∷ ready ∷ got (8 ∷ 3 ∷ 4 ∷ []) ∷ []

abbrev served : Served (List (List ℕ))
served = record { world = []; warnings = 0; buffer = [] }

serial_thread-frames_example :
    let after = serial_thread port (keeps ∷ []) 3 events served in
    let whole = thread_func 4 (keeps ∷ []) (map (whole_read 4) frames) served in
    (after.world ≡ whole.world) × (after.warnings ≡ whole.warnings)
unfolding starts_with
serial_thread-frames_example =
    serial_thread-frames port (9 ∷ 8 ∷ []) [] refl (keeps ∷ []) frames events served (omega arith)
      ((refl, refl), ((refl, refl), tt)) refl
      (omega arith, omega arith, (refl, (omega arith, omega arith, (omega arith, omega arith, tt))))
