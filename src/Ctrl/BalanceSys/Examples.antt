-- ===== src/Ctrl/BalanceSys/Examples.antt =====
-- A controller with limits of 1 and 5, and gains that multiply four of the states.
use robo_band.Base.{◌≡◌, refl}
use robo_band.Base.Int.{pos, negsuc, neg_ℤ, ◌+ℤ◌, ◌-ℤ◌, ◌*ℤ◌, ◌/ℤ◌}
use robo_band.Base.Float.Milli.{Milli, milli, milli_float, Milli-IsOrdered}
use robo_band.Util.Math.{abs_limit}
use robo_band.Ctrl.BalanceSys.{BalanceSys, Readings, State, Torques, state_ref, ctrl_loop}
use robo_band.Ctrl.BalanceSys.Limits.{HasLimits, EachState, EachTorque, ctrl_loop-limits}
use robo_band.Util.Pid.Bounds.{Stays, IsLimit}

abbrev one : Milli
one = milli (pos 1000)

abbrev balance : BalanceSys Milli
balance = record {
  radius_wheel = milli (pos 100);
  s_ref_max = one;
  phi_ref_max = one;
  theta_l_ref_max = one;
  theta_b_ref_max = one;
  wheel_torque_max = milli (pos 5000);
  joint_torque_max = milli (pos 5000);
}

abbrev k_times : State Milli → Torques Milli
k_times x = record { wheel_0 = x.s; wheel_1 = x.s; joint_0 = x.theta_l_1; joint_1 = x.theta_l_2 }

abbrev readings : Readings Milli
readings = record {
  wheel_angle_0 = one;
  wheel_angle_1 = one;
  wheel_speed_0 = one;
  wheel_speed_1 = one;
  joint_angle_0 = milli (pos 400);
  joint_angle_1 = milli (pos 300);
  joint_speed_0 = one;
  joint_speed_1 = one;
  yaw = milli (negsuc 99);
  yaw_speed = one;
  pitch = milli (pos 200);
  pitch_speed = one;
}

one-IsLimit : IsLimit one
unfolding neg_ℤ
one-IsLimit = record { not_negative = refl; number = refl; neg_number = refl }

five-IsLimit : IsLimit (milli (pos 5000))
unfolding neg_ℤ
five-IsLimit = record { not_negative = refl; number = refl; neg_number = refl }

limits : HasLimits balance
limits = record {
  s_ref = one-IsLimit;
  phi_ref = one-IsLimit;
  theta_l_ref = one-IsLimit;
  theta_b_ref = one-IsLimit;
  wheel_torque = five-IsLimit;
  joint_torque = five-IsLimit;
}

ctrl_loop-limits_example :
    EachState Stays balance (state_ref balance readings)
    × EachTorque Stays balance (ctrl_loop balance k_times readings)
ctrl_loop-limits_example = ctrl_loop-limits Milli-IsOrdered balance k_times readings limits

torques : ctrl_loop balance k_times readings ≡ record {
  wheel_0 = milli (negsuc 99);
  wheel_1 = milli (negsuc 99);
  joint_0 = milli (negsuc 599);
  joint_1 = milli (negsuc 499);
}
unfolding ctrl_loop abs_limit neg_ℤ ◌+ℤ◌ ◌-ℤ◌ ◌*ℤ◌ ◌/ℤ◌
torques = refl
