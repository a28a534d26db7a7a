-- ===== src/Io/Lifecycle/Life.antt =====
-- The reading thread of an IO and the thread that owns the object, interleaved in any order, over the
-- whole life of the object: `run`, `stop` and the destructor of `class Io`, and the loops `thread_func`
-- of `IoKey` and `IoNoKey` (src/io/io.hpp).
pub mod Safe
pub mod Doomed
pub mod Unsafe
pub mod Joins
pub mod Examples
use robo_band.Base.{ℕ, ◌≡◌, ◌≢◌, Bool, true, false, List, [], ◌∷◌, not, ◌||◌}
use robo_band.Io.Lifecycle.{Io, Thread, null, joinable, joined, new_io, run}
use robo_band.Io.Lifecycle.Traces.{Call, runs, stops}

-- Where the reading thread is in `thread_func`.
pub data Place : Type 0 where
  absent : Place  -- it was not started
  testing : Place  -- at the test of `running`
  reading : Place  -- in `read`, which writes to the buffer
  serving : Place  -- before it hands the buffer to the unpackers
  returned : Place

-- Where the owner is: before the rest of its calls, after which the destructor runs, in the `join` of a
-- `stop`, in the `join` of the destructor, after it, or after the exception of a second `join`.
pub data Owner : Type 0 where
  calling : List Call → Owner
  joining : List Call → Owner
  dying gone threw : Owner

-- `live` is whether the buffer is there, and `stray` whether it was used when it was not.
pub record Life : Type 0 where
  pub io : Io
  pub live : Bool
  pub worker : Place
  pub owner : Owner
  pub stray : Bool

-- A new object, before these calls.
unfoldable pub born : ℕ → List Call → Life
unfolding new_io
born buffer_size calls = record {
  io = new_io buffer_size;
  live = true;
  worker = absent;
  owner = calling calls;
  stray = false;
}

-- Where the destructor goes on after `delete[] buffer`.
abbrev pub after_delete : Thread → Owner
after_delete joinable = dying
after_delete _ = gone

pub data Step (s : Life) : Life → Type 0 where
  -- The reading thread.
  go_on : s.worker ≡ testing → s.io.running ≡ true → Step s (record s { worker = reading })
  leave : s.worker ≡ testing → s.io.running ≡ false → Step s (record s { worker = returned })
  fill : s.worker ≡ reading → Step s (record s { worker = serving; stray = s.stray || not s.live })
  serve : s.worker ≡ serving → Step s (record s { worker = testing; stray = s.stray || not s.live })
  -- `run`, which starts the thread or not.
  start :
      (calls : List Call)
      → s.owner ≡ calling (runs ∷ calls)
      → s.io.thread ≡ null
      → Step s (record s { io = (run s.io).0; worker = testing; owner = calling calls })
  repeat :
      (calls : List Call)
      → s.owner ≡ calling (runs ∷ calls)
      → s.io.thread ≢ null
      → Step s (record s { io = (run s.io).0; owner = calling calls })
  -- `stop` up to the test of the pointer, and its `join`.
  stop_none :
      (calls : List Call)
      → s.owner ≡ calling (stops ∷ calls)
      → s.io.thread ≡ null
      → Step s (record s { io = record s.io { running = false }; owner = calling calls })
  stop_some :
      (calls : List Call)
      → s.owner ≡ calling (stops ∷ calls)
      → s.io.thread ≡ joinable
      → Step s (record s { io = record s.io { running = false }; owner = joining calls })
  stop_again :
      (calls : List Call)
      → s.owner ≡ calling (stops ∷ calls)
      → s.io.thread ≡ joined
      → Step s (record s { io = record s.io { running = false }; owner = threw })
  join :
      (calls : List Call)
      → s.owner ≡ joining calls
      → s.worker ≡ returned
      → Step s (record s { io = record s.io { thread = joined }; owner = calling calls })
  -- The destructor up to its `join`, and that.
  delete :
      s.owner ≡ calling [] → Step s (record s { live = false; owner = after_delete s.io.thread })
  join_last :
      s.owner ≡ dying
      → s.worker ≡ returned
      → Step s (record s { io = record s.io { thread = joined }; owner = gone })

pub data Reach (s : Life) : Life → Type 0 where
  here : Reach s s
  later : {t u : Life} → Reach s t → Step t u → Reach s u
