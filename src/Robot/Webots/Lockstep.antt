-- ===== src/Robot/Webots/Lockstep.antt =====
-- How often the threads of a simulated robot have passed the barrier.
use robo_band.Base.{ℕ, ◌+◌, ◌<◌, ◌≡◌, arith}
use robo_band.Base.Float.{Float}
use robo_band.Io.Webots.{Webots}
use robo_band.Robot.Webots.System.{System, Reach, begun}
use robo_band.Robot.Webots.Family.{wait}
use robo_band.Robot.Webots.Invariant.{main_wait, IsFresh, begun-Inv}
use robo_band.Robot.Webots.Invariant.Steps.{Reach-Inv}

module _ {F : Type 0} ⦃f : Float F⦄ {W : Type 0} {cycles : ℕ → F} {n : ℕ} (io : Webots W) where
  -- In every order of the steps of the threads, from a simulator to which all runners are bound and that
  -- has made no step: two runners, and each runner and the main thread, have arrived at the barrier
  -- equally often, but for one arrival more of those that wait there now.
  pub laps-lockstep :
      {s : System W} (i j : ℕ)
      → IsFresh n io
      → Reach cycles n (begun io) s
      → i < n
      → j < n
      → ((s.loopers i).laps + wait (s.loopers j) ≡ (s.loopers j).laps + wait (s.loopers i))
        × ((s.loopers i).laps + main_wait s.main ≡ s.main_laps + wait (s.loopers i))
  laps-lockstep i j fresh reach i_lt j_lt =
      let inv = Reach-Inv reach (begun-Inv n io fresh) in
      (
        omega (arith, inv.laps i i_lt, inv.laps j j_lt),
        omega (arith, inv.laps i i_lt, inv.main_laps),
      )
