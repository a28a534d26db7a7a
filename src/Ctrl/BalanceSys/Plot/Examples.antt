-- ===== src/Ctrl/BalanceSys/Plot/Examples.antt =====
-- Two calls on a machine that does not find the host, and one where the port is taken.
use robo_band.Base.{ℕ, ◌≡◌, refl, Option, none, some, [], ◌∷◌}
use robo_band.Base.Int.{pos, negsuc}
use robo_band.Base.Float.Milli.{Milli, milli, milli_float}
use robo_band.Io.Socket.Open.{Call, bind, open_socket}
use robo_band.Util.Host.{failed, to_in_addr}
use robo_band.Ctrl.BalanceSys.{BalanceSys, Readings, State, Torques, ctrl_loop}
use robo_band.Ctrl.BalanceSys.Plot.{
  unmade, made, sets, opens, looks_up, sends, returns, exits_with, calls, numbers_of,
}
use robo_band.Ctrl.BalanceSys.Plot.Rounds.{destination, each, calls-plot}

abbrev one : Milli
one = milli (pos 1000)

abbrev balance : BalanceSys Milli
balance = record {
  radius_wheel = milli (pos 100);
  s_ref_max = one;
  phi_ref_max = one;
  theta_l_ref_max = one;
  theta_b_ref_max = one;
  wheel_torque_max = one;
  joint_torque_max = one;
}

abbrev k_times : State Milli → Torques Milli
k_times x = record { wheel_0 = x.s; wheel_1 = x.s; joint_0 = x.theta_l_1; joint_1 = x.theta_l_2 }

abbrev readings : Milli → Readings Milli
readings x = record {
  wheel_angle_0 = x;
  wheel_angle_1 = x;
  wheel_speed_0 = one;
  wheel_speed_1 = one;
  joint_angle_0 = one;
  joint_angle_1 = one;
  joint_speed_0 = one;
  joint_speed_1 = one;
  yaw = x;
  yaw_speed = one;
  pitch = x;
  pitch_speed = one;
}

-- The port is taken.
abbrev taken : Call → Option ℕ
taken (bind _) = some 98
taken _ = none

exits_at_bind : (open_socket taken (pos 14515) (milli (pos 100000))).exit_code ≡ some 98
unfolding open_socket
exits_at_bind = refl

calls-plot_example :
    let no_error : Call → Option ℕ = λ call. none in
    let k0 : ℕ → Milli = λ j. one in
    let opened = open_socket no_error (pos 14515) (milli_float.of_int (pos 100)) in
    calls no_error
      (λ h. failed)
      balance
      k_times
      k0
      ((readings one, negsuc 0) ∷ (readings (milli (pos 2)), pos 44) ∷ [])
      unmade
    ≡ elim opened.exit_code [
      | some e ↦
          exits_with e (sets (ctrl_loop balance k_times (readings one)) ∷ opens opened.calls ∷ [])
      | none ↦ returns (made (to_in_addr (λ h. failed)).0) (
          sets (ctrl_loop balance k_times (readings one))
          ∷ opens opened.calls
          ∷ looks_up
          ∷ sends (destination failed) (numbers_of balance k_times k0 (readings one))
          ∷ each no_error
              (λ h. failed)
              balance
              k_times
              k0
              ((readings (milli (pos 2)), pos 44) ∷ []))
    ]
calls-plot_example =
    calls-plot (λ call. none) (λ h. failed) balance k_times (λ j. one) (readings one) (negsuc 0)
      ((readings (milli (pos 2)), pos 44) ∷ [])
