-- ===== src/App/RobotCreate/Examples.antt =====
-- A user who sets the port and the speed, over the default file of Aokee.
use Prim.Native.String.{String}
use text.Mathlib.Text.{◌==◌ as str_eq}
use robo_band.Base.{
  ℕ, zero, suc, ◌*◌, ◌≡◌, refl, arith, Option, none, some, List, [], ◌∷◌, if◌then◌else◌,
}
use robo_band.Base.Int.{pos}
use robo_band.Base.Float.Milli.{Milli, milli, milli_float}
use robo_band.Util.Config.{
  floating, string, merge_config, merge_entries, merge_entry, get_table, get_value, get_array,
  convert_all, element_float,
}
use robo_band.Util.Config.Tree.{
  Rows, Node, end, row, leaf, table, array, Elems, nil, elem, tree_toml, tree_toml-IsToml,
}
use robo_band.Util.Config.Parity.{node_at}
use robo_band.App.RobotCreate.{
  Settings, aokee, parsing_failed, new_aokee, create_aokee, robot_create,
}
use robo_band.App.RobotCreate.Origin.{robot_create-origin}

abbrev pub num : ℕ → Node
num n = leaf (floating (milli (pos (1000 * n))))

abbrev pub str : String → Node
str s = leaf (string s)

abbrev pub repeat : ℕ → Elems
repeat zero = nil
repeat (suc n) = elem (num 1) (repeat n)

abbrev chassis : Rows
chassis = row "cycle_ms" (num 5) (
    row "leg_param" (array (repeat 3))
      (row "F_gravity" (num 9) (row "pid_l_param" (array (repeat 5)) end)))

abbrev default : Rows
default = row "robot" (str "Aokee") (
    row "motor_dir" (array (repeat 6)) (
      row "pid_retract" (array (repeat 5)) (
        row "retract_speed" (num 6) (
          row "motor_stop_speed" (num 2) (
            row "retract_ctrl_cycle_ms" (num 5) (
              row "retract_time_min_ms" (num 500) (
                row "joint_limit_angle" (num 3) (
                  row "io" (table (row "rs485" (str "/dev/default") end))
                    (row "ctrl" (table (row "chassis" (table chassis) end)) end)))))))))

abbrev user : Rows
user =
    row "robot" (str "Aokee")
      (row "retract_speed" (num 7) (row "io" (table (row "rs485" (str "/dev/mine") end)) end))

abbrev pub parse_file : String → Option Rows
parse_file path =
    if str_eq path "user.toml"
    then some user
    else if str_eq path "robot/app/Aokee/default.toml"
    then some default
    else none

abbrev pub ones : ℕ → List Milli
ones zero = []
ones (suc n) = milli (pos 1000) ∷ ones n

abbrev pub settings : Settings Milli
settings = record {
  cycle_ms = milli (pos 5000);
  leg_param = ones 3;
  f_gravity = milli (pos 9000);
  pid_l_param = ones 5;
  rs485 = "/dev/default";
  motor_dir = ones 6;
  pid_retract = ones 5;
  retract_speed = milli (pos 7000);
  motor_stop_speed = milli (pos 2000);
  retract_ctrl_cycle_ms = milli (pos 5000);
  retract_time_min_ms = milli (pos 500000);
  joint_limit_angle = milli (pos 3000);
}

pub created : robot_create tree_toml 4 parse_file "robot" "user.toml" ≡ aokee settings
unfolding tree_toml robot_create create_aokee new_aokee merge_config merge_entries merge_entry
    get_table get_value get_array convert_all element_float
created = refl

missing : robot_create tree_toml 4 parse_file "robot" "other.toml" ≡ parsing_failed
unfolding robot_create
missing = refl

robot_create-origin_example :
    (tree_toml.value_string (str "/dev/default") ≡ some settings.rs485)
    × (tree_toml.value_float (num 7) ≡ some settings.retract_speed)
unfolding tree_toml node_at
robot_create-origin_example =
    robot_create-origin tree_toml tree_toml-IsToml 4 parse_file "robot" "user.toml" user default
      settings (str "/dev/mine") (str "/dev/default") (num 7) (num 6) (omega arith) refl refl refl
      refl refl refl (refl, (refl, (refl, (refl, tt)))) created
