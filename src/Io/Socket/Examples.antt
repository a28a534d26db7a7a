-- ===== src/Io/Socket/Examples.antt =====
-- A datagram of three bytes from port 8080 of 127.0.0.1, and a buffer of two bytes.
use robo_band.Base.{ℕ, ◌≡◌, refl, arith, List, [], ◌∷◌, get_elem?, some}
use robo_band.Base.Int.{pos, ◌-ℤ◌, ◌*ℤ◌, ◌/ℤ◌}
use robo_band.Base.Float.Milli.{milli, milli_float}
use robo_band.Io.Socket.{Key, SockAddr, af_inet, swap_bytes, receive_timeout, datagram, read, send}
use robo_band.Io.Socket.Datagrams.{send-read, read-memory}

abbrev sender : SockAddr
sender = record { sin_family = af_inet; sin_addr = 16777343; sin_port = 36895 }

abbrev no_key : Key
no_key = (0, pos 0)

abbrev memory : List ℕ
memory = 0 ∷ 0 ∷ 77 ∷ 78 ∷ []

abbrev message : List ℕ
message = 1 ∷ 2 ∷ 3 ∷ []

port : (read (datagram message sender) no_key memory).key ≡ (16777343, pos 8080)
unfolding read swap_bytes
port = refl

send-read_example : (send (read (datagram message sender) no_key memory).key (pos 9)).0 ≡ sender
send-read_example = send-read 1 (2 ∷ 3 ∷ []) sender no_key memory (pos 9) refl (ground arith)

-- The third byte lies behind the buffer.
read-memory_example :
    let r = read (datagram message sender) no_key memory in
    (r.len ≡ pos 3) × (get_elem? r.memory 2 ≡ some 3)
read-memory_example = read-memory message sender no_key memory 2

timeout :
    receive_timeout (milli (pos 2500000)) ≡ some (record { tv_sec = pos 2; tv_usec = pos 500000 })
unfolding receive_timeout ◌*ℤ◌ ◌-ℤ◌ ◌/ℤ◌
timeout = refl
