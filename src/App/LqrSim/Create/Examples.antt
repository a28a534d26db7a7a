-- ===== src/App/LqrSim/Create/Examples.antt =====
-- The default file of LqrSim, with gains of one, and a user who chooses another gyro.
use Prim.Native.String.{String}
use text.Mathlib.Text.{◌==◌ as str_eq}
use robo_band.Base.{◌≡◌, refl, Option, none, some, if◌then◌else◌}
use robo_band.Base.Int.{pos, negsuc}
use robo_band.Base.Float.Milli.{Milli, milli, milli_float}
use robo_band.Util.Config.{
  integer, merge_config, merge_entries, merge_entry, get_table, get_value, get_array, convert_all,
  element_float,
}
use robo_band.Util.Config.Tree.{Rows, Node, end, row, leaf, table, array, tree_toml}
use robo_band.Ctrl.BalanceSys.Create.{gains_of, new_balance_sys}
use robo_band.App.RobotCreate.Examples.{num, str, repeat, ones}
use robo_band.App.LqrSim.Create.{
  MotorName, Settings, lqr_sim, robot_create, create_lqr_sim, new_lqr_sim, motor_name,
}

abbrev minus_one : Node
minus_one = leaf (integer (negsuc 0))

abbrev balance_sys : Rows
balance_sys = row "cycle_ms" (leaf (integer (pos 1))) (
    row "radius_wheel" (num 1) (
      row "s_ref_max" (num 1) (
        row "phi_ref_max" (num 2) (
          row "theta_l_ref_max" (num 7) (
            row "theta_b_ref_max" (num 2) (
              row "wheel_torque_max" (num 6)
                (row "joint_torque_max" (num 20) (row "K" (array (repeat 40)) end))))))))

abbrev default : Rows
default = row "robot" (str "lqr_sim") (
    row "inertial" (str "inertial") (
      row "gyro" (str "gyro") (
        row "wheel_motor_1" (str "w1") (
          row "wheel_motor_1_dir" minus_one (
            row "wheel_motor_2" (str "w2") (
              row "wheel_motor_2_dir" minus_one (
                row "joint_motor_1" (str "j1") (
                  row "joint_motor_1_dir" minus_one (
                    row "joint_motor_2" (str "j2") (
                      row "joint_motor_2_dir" minus_one (
                        row "ctrl" (table (row "balance_sys" (table balance_sys) end))
                          end)))))))))))

abbrev user : Rows
user = row "robot" (str "lqr_sim") (row "gyro" (str "gyro_2") end)

abbrev parse_file : String → Option Rows
parse_file path =
    if str_eq path "user.toml"
    then some user
    else if str_eq path "robot/app/lqr_sim/default.toml"
    then some default
    else none

abbrev motor : String → MotorName
motor name = record { name = name; dir = negsuc 0 }

abbrev settings : Settings Milli
settings = record {
  balance_sys = record {
    cycle_ms = pos 1;
    constants = record {
      radius_wheel = milli (pos 1000);
      s_ref_max = milli (pos 1000);
      phi_ref_max = milli (pos 2000);
      theta_l_ref_max = milli (pos 7000);
      theta_b_ref_max = milli (pos 2000);
      wheel_torque_max = milli (pos 6000);
      joint_torque_max = milli (pos 20000);
    };
    gains = gains_of (ones 40);
  };
  inertial = "inertial";
  gyro = "gyro_2";
  wheel_motor_1 = motor "w1";
  wheel_motor_2 = motor "w2";
  joint_motor_1 = motor "j1";
  joint_motor_2 = motor "j2";
}

created : robot_create tree_toml 4 parse_file "robot" "user.toml" ≡ lqr_sim settings
unfolding tree_toml robot_create create_lqr_sim new_lqr_sim motor_name new_balance_sys gains_of
    merge_config merge_entries merge_entry get_table get_value get_array convert_all element_float
created = refl
