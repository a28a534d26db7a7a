-- ===== src/Ctrl/BalanceSys/Plot.antt =====
-- The end of `BalanceSys::ctrlLoop` in src/ctrl/balance_sys/balance_sys.cc: the static socket and the static
-- address, which the first call makes, and the datagram of each call; with the torques of that call. What
-- the system and the resolver answer is an argument.
pub mod Rounds
pub mod Examples
use robo_band.Base.{ℕ, Option, none, some, List, [], ◌∷◌, ◌++◌}
use robo_band.Base.Int.{ℤ, pos}
use robo_band.Base.Float.{Float}
use robo_band.Io.Socket.{SockAddr, send}
use robo_band.Io.Socket.Open.{Call, open_socket}
use robo_band.Util.Host.{Hints, Answer, to_in_addr}
use robo_band.Ctrl.BalanceSys.{
  BalanceSys, Readings, State, Torques, state_ref, state_error, ctrl_loop,
}
use robo_band.Ctrl.BalanceSys.Create.{plot_data}

-- The statics `plot` and `ip`: not made yet, or with this address.
pub data Statics : Type 0 where
  unmade : Statics
  made : ℕ → Statics

-- What a call does: it sets torques, opens the socket, looks the host up, and sends numbers.
pub data Effect {ℓ} (F : Type ℓ) : Type ℓ where
  sets : Torques F → Effect F
  opens : List Call → Effect F
  looks_up : Effect F
  sends : SockAddr → List F → Effect F

-- The call returns, or the process exits.
pub data Plotted {ℓ} (F : Type ℓ) : Type ℓ where
  returns : Statics → List (Effect F) → Plotted F
  exits_with : ℕ → List (Effect F) → Plotted F

module _ {ℓ} {F : Type ℓ} ⦃f : Float F⦄ (c : BalanceSys F) (k_times : State F → Torques F)
    (k0 : ℕ → F) where
  -- The numbers for plotting in a call with these readings.
  abbrev pub numbers_of : Readings F → List F
  numbers_of r = let x = state_ref c r in plot_data k0 x (k_times (state_error x))

module _ {ℓ} {F : Type ℓ} ⦃f : Float F⦄ (errno_of : Call → Option ℕ)
    (getaddrinfo : Hints → Answer) where
  -- The datagram, for what `sendto` returns, which is not looked at.
  abbrev pub datagram : ℕ → ℤ → List F → Effect F
  datagram ip sent numbers = sends (send (ip, pos 14514) sent).0 numbers

  -- From the static `plot` on.
  unfoldable pub plot : ℤ → List F → Statics → Plotted F
  plot sent numbers unmade =
      let opened = open_socket errno_of (pos 14515) (f.of_int (pos 100)) in
      elim opened.exit_code [
        | some e ↦ exits_with e (opens opened.calls ∷ [])
        | none ↦
            let ip = (to_in_addr getaddrinfo).0 in
            returns (made ip) (opens opened.calls ∷ looks_up ∷ datagram ip sent numbers ∷ [])
      ]
  plot sent numbers (made ip) = returns (made ip) (datagram ip sent numbers ∷ [])

  module _ (c : BalanceSys F) (k_times : State F → Torques F) (k0 : ℕ → F) where
    -- The whole call; the second part is what `sendto` returns.
    unfoldable pub call : Readings F × ℤ → Statics → Plotted F
    call (r, sent) statics =
        let torques = sets (ctrl_loop c k_times r) in
        elim (plot sent (numbers_of c k_times k0 r) statics) [
          | returns statics' effects ↦ returns statics' (torques ∷ effects)
          | exits_with e effects ↦ exits_with e (torques ∷ effects)
        ]

    -- One call after another, until the process exits.
    unfoldable pub calls : List (Readings F × ℤ) → Statics → Plotted F
    calls [] statics = returns statics []
    calls (r ∷ rs) statics = elim (call r statics) [
      | exits_with e effects ↦ exits_with e effects
      | returns statics' effects ↦ elim (calls rs statics') [
        | returns statics'' more ↦ returns statics'' (effects ++ more)
        | exits_with e more ↦ exits_with e (effects ++ more)
      ]
    ]
