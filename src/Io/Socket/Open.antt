-- ===== src/Io/Socket/Open.antt =====
-- How the constructor and the destructor of Socket open, bind and close the socket: src/io/socket.cc.
pub mod Setup
use robo_band.Base.{ℕ, Option, none, some, List, [], ◌∷◌}
use robo_band.Base.Int.{ℤ}
use robo_band.Base.Float.{Float}
use robo_band.Io.SystemCalls.{Made, exits, succeeds}
use robo_band.Io.Socket.{SockAddr, Timeval, af_inet, to_uint16, swap_bytes, receive_timeout}

-- The calls with their arguments.
pub data Call : Type 0 where
  socket : Call
  bind : SockAddr → Call
  setsockopt : Timeval → Call
  close : Call

-- `my_addr`: any address of this machine.
unfoldable pub my_addr : ℤ → SockAddr
my_addr port = record { sin_family = af_inet; sin_addr = 0; sin_port = swap_bytes (to_uint16 port) }

unfoldable pub open_socket {ℓ} : {F : Type ℓ} ⦃f : Float F⦄ → (Call → Option ℕ) → ℤ → F → Made Call
open_socket errno_of port timeout_ms = elim (errno_of socket) [
  | some e ↦ exits e (socket ∷ [])
  | none ↦ elim (errno_of (bind (my_addr port))) [
    | some e ↦ exits e (socket ∷ bind (my_addr port) ∷ [])
    | none ↦ elim (receive_timeout timeout_ms) [
      | none ↦ succeeds (socket ∷ bind (my_addr port) ∷ [])
      | some tv ↦ elim (errno_of (setsockopt tv)) [
        | some e ↦ exits e (socket ∷ bind (my_addr port) ∷ setsockopt tv ∷ [])
        | none ↦ succeeds (socket ∷ bind (my_addr port) ∷ setsockopt tv ∷ [])
      ]
    ]
  ]
]

-- The destructor only logs a failure.
unfoldable pub close_socket : Made Call
close_socket = succeeds (close ∷ [])
