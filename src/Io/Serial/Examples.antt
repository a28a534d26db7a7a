-- ===== src/Io/Serial/Examples.antt =====
-- A port with a buffer of six bytes and one head, 0xfd 0xee.
use robo_band.Base.{◌≡◌, refl, List, [], ◌∷◌, arith, replicate, true}
use robo_band.Base.Int.{pos}
use robo_band.Util.Time.{Timespec}
use robo_band.Io.Serial.{
  Serial, Event, got, ready, timeout, read, round, scan_heads, write_at, move_down, take_chunk,
  returned,
}
use robo_band.Io.Serial.Bytes.{find_bytes}
use robo_band.Io.Serial.Framing.{IsRight, read-IsRight}

abbrev zero_time : Timespec
zero_time = record { tv_sec = pos 0; tv_nsec = pos 0 }

abbrev port : Serial
port = record {
  buffer_size = 6;
  head_tails = (0xfd ∷ 0xee ∷ [], []) ∷ [];
  timeout_inline = zero_time;
  timeout_wait = zero_time;
}

-- One byte of noise before the frame.
abbrev events : List Event
events = got (1 ∷ 0xfd ∷ 0xee ∷ []) ∷ ready ∷ got (7 ∷ 8 ∷ []) ∷ timeout ∷ []

framed :
    read port events (replicate 6 0)
    ≡ returned
        (pos 4)
        (record { buffer = 0xfd ∷ 0xee ∷ 7 ∷ 8 ∷ 0 ∷ 0 ∷ []; read_len = 4; got_data = true })
        []
unfolding read round take_chunk scan_heads write_at move_down find_bytes
framed = refl

read-IsRight_example : IsRight port [] events (read port events (replicate 6 0))
unfolding take_chunk scan_heads write_at move_down find_bytes
read-IsRight_example =
    read-IsRight port events (replicate 6 0) refl (omega arith, (omega arith, tt))
