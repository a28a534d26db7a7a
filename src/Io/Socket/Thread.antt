-- ===== src/Io/Socket/Thread.antt =====
-- The thread of a socket: `IoKey::thread_func` (src/io/io.hpp) with `Socket::read` (src/io/socket.cc), over
-- what the kernel answers. The buffer is not cleared between two reads; the key is a new one in each.
pub mod Messages
pub mod Examples
use robo_band.Base.{ℕ, List, [], ◌∷◌, Option, none, some, leb, length, if◌then◌else◌}
use robo_band.Base.Int.{pos}
use robo_band.Io.Key.{Unpacker, Served, dispatch}
use robo_band.Io.Socket.{Key, Received, read}

module _ {ℓ} (same : Discrete Key) {W : Type ℓ} (unpackers : List (Key × Unpacker W)) where
  -- The thread over what it receives while `running` is true, from what the buffer holds; none if a
  -- datagram is written past the end of the buffer.
  unfoldable pub socket_thread : List Received → List ℕ → Served W → Option (Served W)
  socket_thread [] buffer served = some served
  socket_thread (x ∷ xs) buffer served =
      let r = read x (0, pos 0) buffer in
      let rest =
        socket_thread xs r.memory (
          dispatch same unpackers (record { key = r.key; len = r.len; buffer = r.memory })
            served) in
      if leb (length r.memory) (length buffer) then rest else none
