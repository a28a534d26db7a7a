-- ===== src/Io/Lifecycle.antt =====
-- `class Io` of src/io/io.hpp: starting, stopping and destroying the reading thread. Log lines are
-- left out.
pub mod Traces
pub mod Life
pub mod Examples
use robo_band.Base.{ℕ, Bool, true, false, List, [], ◌∷◌, ◌++◌, Option, none, some}

-- The pointer `thread`: null, to a thread that can be joined, or to one that was joined.
pub data Thread : Type 0 where
  null joinable joined : Thread

pub record Io : Type 0 where
  pub buffer_size : ℕ
  pub running : Bool
  pub thread : Thread

-- What the methods do besides changing the object.
pub data Effect : Type 0 where
  start_thread join_thread delete_buffer : Effect

unfoldable pub new_io : ℕ → Io
new_io buffer_size = record { buffer_size = buffer_size; running = false; thread = null }

unfoldable pub run : Io → Io × List Effect
run io = elim io.thread [
  | null ↦ (record io { running = true; thread = joinable }, start_thread ∷ [])
  | _ ↦ (io, [])
]

-- `none` is the `std::system_error` that `join` throws on a thread that was joined before.
unfoldable pub stop : Io → Option (Io × List Effect)
stop io = elim io.thread [
  | null ↦ some (record io { running = false }, [])
  | joinable ↦ some (record io { running = false; thread = joined }, join_thread ∷ [])
  | joined ↦ none
]

-- The destructor.
unfoldable pub destroy : Io → List Effect
destroy io = elim io.thread [ joinable ↦ delete_buffer ∷ join_thread ∷ [] | _ ↦ delete_buffer ∷ [] ]
