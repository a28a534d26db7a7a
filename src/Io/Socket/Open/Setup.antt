-- ===== src/Io/Socket/Open/Setup.antt =====
-- Which calls open a socket.
use robo_band.Base.{ℕ, ◌≡◌, Option, none, some, List, [], ◌∷◌, arith}
use robo_band.Base.Int.{ℤ}
use robo_band.Base.Float.{Float}
use robo_band.Io.SystemCalls.{try_all}
use robo_band.Io.Socket.{receive_timeout}
use robo_band.Io.Socket.Open.{Call, socket, bind, setsockopt, my_addr, open_socket}

-- The calls that would be made if all succeed: a timeout is set only if it is positive.
abbrev pub planned : {F : Type 0} ⦃f : Float F⦄ → ℤ → F → List Call
planned port timeout_ms =
    socket
    ∷ bind (my_addr port)
    ∷ elim (receive_timeout timeout_ms) [ none ↦ [] | some tv ↦ setsockopt tv ∷ [] ]

-- In whatever way the system calls fail, the constructor makes the planned calls up to the first that fails,
-- and the process exits with the code of that one.
pub open_socket-first_failure :
    {F : Type 0} ⦃f : Float F⦄ (errno_of : Call → Option ℕ) (port : ℤ) (timeout_ms : F)
    → open_socket errno_of port timeout_ms ≡ try_all errno_of (planned port timeout_ms)
unfolding open_socket
open_socket-first_failure errno_of port timeout_ms = ground arith
