-- ===== src/Io/Key/Examples.antt =====
-- Two devices on an IO with keys; each keeps the lengths of its messages.
use robo_band.Base.{ℕ, ◌≡◌, refl, List, [], ◌∷◌}
use robo_band.Base.Int.{ℤ, pos, negsuc}
use native.Mathlib.Decide.{ℕ_discrete}
use robo_band.Io.Key.{Unpacker, Received, Served, find, dispatch, thread_func}
use robo_band.Io.Key.Dispatch.{bound, replay, thread_func-replay}

abbrev keep : Unpacker (List ℤ)
keep buffer len s = len ∷ s

abbrev devices : List (ℕ × Unpacker (List ℤ))
devices = (5, keep) ∷ (7, keep) ∷ []

abbrev message : ℕ → ℤ → Received ℕ
message key len = record { key = key; len = len; buffer = [] }

abbrev messages : List (Received ℕ)
messages =
    message 5 (pos 3)
    ∷ message 7 (pos 4)
    ∷ message 9 (pos 1)
    ∷ message 5 (negsuc 0)
    ∷ message 5 (pos 6)
    ∷ []

abbrev fresh : Served (ℕ → List ℤ)
fresh = record { world = λ k. []; warnings = 0 }

one_warning : (thread_func ℕ_discrete (bound ℕ_discrete devices) messages fresh).warnings ≡ 1
unfolding thread_func dispatch find ℕ_discrete
one_warning = refl

thread_func-replay_example :
    (thread_func ℕ_discrete (bound ℕ_discrete devices) messages fresh).world 5
    ≡ replay ℕ_discrete keep 5 messages []
unfolding find ℕ_discrete
thread_func-replay_example = thread_func-replay ℕ_discrete devices messages fresh 5 keep refl
