-- ===== src/App/RobotCreate.antt =====
-- `robotCreate` of app/robot_create.cc, as it is built without USE_WEBOTS, and what the constructors of
-- Aokee and of its parts read from the configuration (app/Aokee/Aokee.cc,
-- src/ctrl/wheel_legged_chassis/wheel_legged_chassis.hpp). The parser of toml++ is a parameter. Log
-- lines are left out, but the result says which case of the source was met.
pub mod Origin
pub mod Examples
use Prim.Native.String.{String, ◌++◌}
use text.Mathlib.Text.{◌==◌ as str_eq}
use robo_band.Base.{ℕ, Option, none, some, List, if◌then◌else◌}
use robo_band.Base.Float.{Float}
use robo_band.Util.Config.{
  Toml, Checked, ok, wrong_configuration, ◌>>=◌, merge_config, get_table, get_value, get_array,
  element_float,
}

-- What the constructors keep of the configuration.
pub record Settings {ℓ} (F : Type ℓ) : Type ℓ where
  pub cycle_ms : F
  pub leg_param : List F
  pub f_gravity : F
  pub pid_l_param : List F
  pub rs485 : String
  pub motor_dir : List F
  pub pid_retract : List F
  pub retract_speed : F
  pub motor_stop_speed : F
  pub retract_ctrl_cycle_ms : F
  pub retract_time_min_ms : F
  pub joint_limit_angle : F

-- A robot, or the reasons for a null pointer.
pub data Created {ℓ} (F : Type ℓ) : Type ℓ where
  aokee : Settings F → Created F
  parsing_failed no_robot_key not_a_string no_implementation initialization_failed : Created F

module _ {ℓ} {F T N : Type ℓ} ⦃f : Float F⦄ (toml : Toml F T N) where
  open toml use {get, value_float, value_string}

  -- `config > Key<float>(key)`, `config > Key<std::string>(key)` and `config > Key<float, n>(key)`.
  abbrev pub float_at : T → String → Checked F
  float_at t key = get_value toml value_float t key

  abbrev pub string_at : T → String → Checked String
  string_at t key = get_value toml value_string t key

  abbrev pub floats_at : ℕ → T → String → Checked (List F)
  floats_at n t key = get_array toml (element_float toml) n t key

  -- The constructors, in the order in which they read.
  unfoldable pub new_aokee : T → Checked (Settings F)
  new_aokee config = do
    ctrl ← get_table toml config "ctrl"
    chassis ← get_table toml ctrl "chassis"
    cycle_ms ← float_at chassis "cycle_ms"
    leg_param ← floats_at 3 chassis "leg_param"
    f_gravity ← float_at chassis "F_gravity"
    pid_l_param ← floats_at 5 chassis "pid_l_param"
    io ← get_table toml config "io"
    rs485 ← string_at io "rs485"
    motor_dir ← floats_at 6 config "motor_dir"
    pid_retract ← floats_at 5 config "pid_retract"
    retract_speed ← float_at config "retract_speed"
    motor_stop_speed ← float_at config "motor_stop_speed"
    retract_ctrl_cycle_ms ← float_at config "retract_ctrl_cycle_ms"
    retract_time_min_ms ← float_at config "retract_time_min_ms"
    joint_limit_angle ← float_at config "joint_limit_angle"
    ok (record {
      cycle_ms = cycle_ms;
      leg_param = leg_param;
      f_gravity = f_gravity;
      pid_l_param = pid_l_param;
      rs485 = rs485;
      motor_dir = motor_dir;
      pid_retract = pid_retract;
      retract_speed = retract_speed;
      motor_stop_speed = motor_stop_speed;
      retract_ctrl_cycle_ms = retract_ctrl_cycle_ms;
      retract_time_min_ms = retract_time_min_ms;
      joint_limit_angle = joint_limit_angle;
    })

  -- `value_or(std::string_view("err"))`.
  abbrev pub name_of : N → String
  name_of node = elim (value_string node) [ none ↦ "err" | some name ↦ name ]

  -- The branch of Aokee, for the user's configuration and what the parser gives for the default one.
  unfoldable pub create_aokee : ℕ → T → Option T → Created F
  unfolding new_aokee
  create_aokee fuel user none = initialization_failed
  create_aokee fuel user (some default) = elim (new_aokee (merge_config toml fuel user default).1) [
    | wrong_configuration ↦ initialization_failed
    | ok settings ↦ aokee settings
  ]

  -- `robotCreate`, with fuel for `merge_config`.
  unfoldable pub robot_create : ℕ → (String → Option T) → String → String → Created F
  unfolding create_aokee
  robot_create fuel parse_file project_path user_config_path = elim (parse_file user_config_path) [
    | none ↦ parsing_failed
    | some user ↦ elim (get user "robot") [
      | none ↦ no_robot_key
      | some node ↦
          if str_eq (name_of node) "Aokee"
          then create_aokee fuel user (parse_file (project_path ++ "/app/Aokee/default.toml"))
          else if str_eq (name_of node) "err"
          then not_a_string
          else no_implementation
    ]
  ]
