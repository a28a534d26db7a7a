-- ===== src/Io/Socket/Thread/Examples.antt =====
-- A device that keeps the bytes of its messages, at port 8080 of 127.0.0.1.
use robo_band.Base.{
  refl, some, none, if◌then◌else◌, true, false, ℕ, ◌≡◌, List, [], ◌∷◌, take, length, ap, arith,
  take-append_le,
}
use native.Mathlib.Decide.{ℕ_discrete}
use robo_band.Base.Int.{pos, pos_part}
use robo_band.Io.Key.{Unpacker, Served, thread_func}
use robo_band.Io.Socket.{Key, SockAddr, af_inet, Received, failed, datagram}
use robo_band.Io.Socket.Thread.{socket_thread}
use robo_band.Io.Socket.Thread.Messages.{LooksWithin, all_fit, messages, socket_thread-messages}

abbrev keep : Unpacker (List (List ℕ))
keep buffer len kept = take (pos_part len) buffer ∷ kept

keep-LooksWithin : LooksWithin keep
keep-LooksWithin bytes more kept =
    ap (λ xs. xs ∷ kept) (take-append_le (length bytes) bytes more (omega arith))

abbrev sender : SockAddr
sender = record { sin_family = af_inet; sin_addr = 16777343; sin_port = 36895 }

abbrev devices : List (Key × Unpacker (List (List ℕ)))
devices = ((16777343, pos 8080), keep) ∷ []

abbrev received : List Received
received =
    datagram (1 ∷ 2 ∷ 3 ∷ []) sender ∷ failed ∷ datagram [] sender ∷ datagram (4 ∷ []) sender ∷ []

abbrev fresh : Served (List (List ℕ))
fresh = record { world = []; warnings = 0 }

abbrev key_discrete : Discrete Key
key_discrete = hlevel (ℕ_discrete)

socket_thread-messages_example :
    socket_thread key_discrete devices received (7 ∷ 7 ∷ 7 ∷ 7 ∷ []) fresh ≡ (
      if all_fit 4 received
      then some (thread_func key_discrete devices (messages received) fresh)
      else none)
socket_thread-messages_example =
    socket_thread-messages key_discrete devices (keep-LooksWithin, tt) received (7 ∷ 7 ∷ 7 ∷ 7 ∷ [])
      fresh

fit : all_fit 4 received ≡ true
fit = refl

too_long : all_fit 2 received ≡ false
too_long = refl
