-- ===== src/Ctrl/BalanceSys/Plot/Rounds.antt =====
-- What any number of calls sends for plotting.
use robo_band.Base.{ℕ, ◌≡◌, refl, List, [], ◌∷◌, Option, none, some, Option-cases, inl, inr}
use robo_band.Base.Int.{ℤ, pos}
use robo_band.Base.Float.{Float}
use robo_band.Io.Socket.{SockAddr, send, af_inet, swap_bytes, to_uint16}
use robo_band.Io.Socket.Open.{Call, open_socket}
use robo_band.Util.Host.{Hints, Answer, failed, found, hints, inaddr_none, to_in_addr}
use robo_band.Ctrl.BalanceSys.{BalanceSys, Readings, State, Torques, ctrl_loop}
use robo_band.Ctrl.BalanceSys.Plot.{
  unmade, made, Effect, sets, opens, looks_up, sends, returns, exits_with, plot, call, calls,
  numbers_of,
}

-- Where the numbers go: the port 14514 at the address of the host, or at the broadcast address
-- 255.255.255.255 if it is not found.
abbrev pub destination : Answer → SockAddr
destination failed = record {
  sin_family = af_inet;
  sin_addr = inaddr_none;
  sin_port = swap_bytes 14514;
}
destination (found ip more) = record {
  sin_family = af_inet;
  sin_addr = ip;
  sin_port = swap_bytes 14514;
}

send-destination :
    (getaddrinfo : Hints → Answer) (sent : ℤ)
    → (send ((to_in_addr getaddrinfo).0, pos 14514) sent).0 ≡ destination (getaddrinfo hints)
unfolding send to_in_addr to_uint16
send-destination getaddrinfo sent = go (getaddrinfo hints) refl
  where
    go :
        (answer : Answer)
        → getaddrinfo hints ≡ answer
        → (send ((to_in_addr getaddrinfo).0, pos 14514) sent).0 ≡ destination answer
    go failed e = rw (e, to_in_addr) refl
    go (found ip more) e = rw (e, to_in_addr) refl

module _ {ℓ} {F : Type ℓ} ⦃f : Float F⦄ (errno_of : Call → Option ℕ) (getaddrinfo : Hints → Answer)
    (c : BalanceSys F) (k_times : State F → Torques F) (k0 : ℕ → F) where
  -- What each call does once the statics are made.
  abbrev pub each : List (Readings F × ℤ) → List (Effect F)
  each [] = []
  each ((r, sent) ∷ rs) =
      sets (ctrl_loop c k_times r)
      ∷ sends (destination (getaddrinfo hints)) (numbers_of c k_times k0 r)
      ∷ each rs

  calls-made :
      (rs : List (Readings F × ℤ))
      → let ip = (to_in_addr getaddrinfo).0 in
        calls errno_of getaddrinfo c k_times k0 rs (made ip) ≡ returns (made ip) (each rs)
  unfolding calls call plot
  calls-made [] = refl
  calls-made ((r, sent) ∷ rs) = rw (calls-made rs, send-destination getaddrinfo sent) refl

  -- The first call of the control loop opens the socket for plotting after it has set its torques. If
  -- this fails, the process exits, with the torques set and no later call. Otherwise the host is looked
  -- up once, and every call sets its torques and then sends one datagram of its own numbers, all to
  -- the address of the host, or all to the broadcast address if it was not found.
  pub calls-plot :
      (r : Readings F) (sent : ℤ) (rs : List (Readings F × ℤ))
      → let opened = open_socket errno_of (pos 14515) (f.of_int (pos 100)) in
        calls errno_of getaddrinfo c k_times k0 ((r, sent) ∷ rs) unmade ≡ elim opened.exit_code [
          | some e ↦ exits_with e (sets (ctrl_loop c k_times r) ∷ opens opened.calls ∷ [])
          | none ↦ returns (made (to_in_addr getaddrinfo).0) (
              sets (ctrl_loop c k_times r)
              ∷ opens opened.calls
              ∷ looks_up
              ∷ sends (destination (getaddrinfo hints)) (numbers_of c k_times k0 r)
              ∷ each rs)
        ]
  unfolding calls call plot
  calls-plot r sent rs =
      let opened = open_socket errno_of (pos 14515) (f.of_int (pos 100)) in
      elim (Option-cases opened.exit_code) [
        | inl e ↦
            rw (e, plot, call, calls) (rw (calls-made rs, send-destination getaddrinfo sent) refl)
        | inr (code, e) ↦ rw (e, plot, call, calls) refl
      ]
