-- ===== src/Io/Key/Dispatch.antt =====
-- Each bound key gets its own messages, all of them, in order.
use mathlib.Core.Logic.{ite}
use robo_band.Base.{◌≡◌, ◌∙◌, refl, ap, none, some, List, [], ◌∷◌, arith, if◌then◌else◌}
use robo_band.Base.Int.{pos, ltb_ℤ}
use robo_band.Io.Key.{Unpacker, Received, Served, find, dispatch, thread_func}

module _ {K : Type 0} (same : Discrete K) {S : Type 0} where
  -- Devices with a state each, one for a key.
  abbrev pub on_slot : K → Unpacker S → Unpacker (K → S)
  on_slot k u buffer len w j = ite (same k j) (u buffer len (w k)) (w j)

  abbrev pub bound : List (K × Unpacker S) → List (K × Unpacker (K → S))
  bound [] = []
  bound ((k, u) ∷ devices) = (k, on_slot k u) ∷ bound devices

  -- The messages for a key, given to its device one after another.
  abbrev pub replay : Unpacker S → K → List (Received K) → S → S
  replay u k [] s = s
  replay u k (r ∷ rs) s =
      replay u k rs (if ltb_ℤ (pos 0) r.len then ite (same r.key k) (u r.buffer r.len s) s else s)

  find-bound :
      (k : K) (devices : List (K × Unpacker S))
      → find same k (bound devices)
        ≡ elim (find same k devices) [ none ↦ none | some u ↦ some (on_slot k u) ]
  unfolding find
  find-bound k [] = refl
  find-bound k ((j, u) ∷ devices) = ground (arith, find-bound k devices)

  -- One message changes at most the state of its own key.
  dispatch-bound :
      (devices : List (K × Unpacker S)) (r : Received K) (s : Served (K → S)) (k : K)
      (u : Unpacker S)
      → find same k devices ≡ some u
      → (dispatch same (bound devices) r s).world k ≡ (
          if ltb_ℤ (pos 0) r.len
          then ite (same r.key k) (u r.buffer r.len (s.world k)) (s.world k)
          else s.world k)
  unfolding dispatch
  dispatch-bound devices r s k u h = ground (arith, find-bound r.key devices)

  -- Of the messages read by a thread, the device bound to a key gets exactly those with that key and a
  -- positive length, each once and in the order read, and no other device's message changes it.
  pub thread_func-replay :
      (devices : List (K × Unpacker S))
      → (rs : List (Received K)) → (s : Served (K → S)) (k : K) (u : Unpacker S)
      → find same k devices ≡ some u
      → (thread_func same (bound devices) rs s).world k ≡ replay u k rs (s.world k)
  unfolding thread_func
  thread_func-replay devices [] s k u h = refl
  thread_func-replay devices (r ∷ rs) s k u h =
      thread_func-replay devices rs (dispatch same (bound devices) r s) k u h
      ∙ ap (replay u k rs) (dispatch-bound devices r s k u h)
