-- ===== src/Io/Lifecycle/Traces.antt =====
-- Any sequence of `run` and `stop` on one object.
use robo_band.Base.{
  ℕ, zero, suc, ◌≡◌, refl, true, false, List, [], ◌∷◌, ◌++◌, Option, none, some, arith,
}
use robo_band.Io.Lifecycle.{
  Io, null, joinable, joined, Effect, start_thread, join_thread, new_io, run, stop,
}

pub data Call : Type 0 where
  runs stops : Call

-- `none` from the call on that throws.
unfoldable pub call_all : Io → List Call → Option (Io × List Effect)
call_all io [] = some (io, [])
call_all io (runs ∷ calls) =
    let (next, effects) = run io in
    elim (call_all next calls) [ none ↦ none | some (last, rest) ↦ some (last, effects ++ rest) ]
call_all io (stops ∷ calls) = elim (stop io) [
  | none ↦ none
  | some (next, effects) ↦ elim (call_all next calls) [
    | none ↦ none
    | some (last, rest) ↦ some (last, effects ++ rest)
  ]
]

abbrev pub count_stops : List Call → ℕ
count_stops [] = 0
count_stops (runs ∷ calls) = count_stops calls
count_stops (stops ∷ calls) = suc (count_stops calls)

-- How often `stop` is called after the first `run`, if there is one.
abbrev pub stops_after_run : List Call → Option ℕ
stops_after_run [] = none
stops_after_run (runs ∷ calls) = some (count_stops calls)
stops_after_run (stops ∷ calls) = stops_after_run calls

abbrev pub started : ℕ → Io
started n = record { buffer_size = n; running = true; thread = joinable }

abbrev pub stopped : ℕ → Io
stopped n = record { buffer_size = n; running = false; thread = joined }

abbrev pub outcome : ℕ → Option ℕ → Option (Io × List Effect)
outcome n none = some (record { buffer_size = n; running = false; thread = null }, [])
outcome n (some zero) = some (started n, start_thread ∷ [])
outcome n (some (suc zero)) = some (stopped n, start_thread ∷ join_thread ∷ [])
outcome n (some (suc (suc k))) = none

abbrev from_stopped : ℕ → ℕ → Option (Io × List Effect)
from_stopped n zero = some (stopped n, [])
from_stopped n (suc k) = none

call_all-stopped :
    (n : ℕ) (calls : List Call) → call_all (stopped n) calls ≡ from_stopped n (count_stops calls)
unfolding call_all run stop
call_all-stopped n [] = refl
call_all-stopped n (runs ∷ calls) = ground (arith, call_all-stopped n calls)
call_all-stopped n (stops ∷ calls) = refl

abbrev from_started : ℕ → ℕ → Option (Io × List Effect)
from_started n zero = some (started n, [])
from_started n (suc zero) = some (stopped n, join_thread ∷ [])
from_started n (suc (suc k)) = none

call_all-started :
    (n : ℕ) (calls : List Call) → call_all (started n) calls ≡ from_started n (count_stops calls)
unfolding call_all run stop
call_all-started n [] = refl
call_all-started n (runs ∷ calls) = ground (arith, call_all-started n calls)
call_all-started n (stops ∷ calls) = ground (arith, call_all-stopped n calls)

-- What any sequence of `run` and `stop` does to a new object. Without a `run` nothing happens.
-- Otherwise one thread is started, at the first `run`; it is joined once, at the first `stop` after
-- that, and is not started again; a second `stop` after that throws.
pub call_all-new_io :
    (n : ℕ) (calls : List Call) → call_all (new_io n) calls ≡ outcome n (stops_after_run calls)
unfolding call_all new_io run stop
call_all-new_io n [] = refl
call_all-new_io n (runs ∷ calls) = ground (arith, call_all-started n calls)
call_all-new_io n (stops ∷ calls) = ground (arith, call_all-new_io n calls)
