-- ===== src/App/LqrSim/Create.antt =====
-- What the constructor of LqrSim reads from the configuration (app/lqr_sim/lqr_sim.cc), and `robotCreate` of
-- app/robot_create.cc as it is built with USE_WEBOTS. The parser of toml++ is a parameter; the result
-- says which case of the source was met.
pub mod Examples
use Prim.Native.String.{String, ◌++◌}
use text.Mathlib.Text.{◌==◌ as str_eq}
use robo_band.Base.{ℕ, Option, none, some, if◌then◌else◌}
use robo_band.Base.Int.{ℤ}
use robo_band.Base.Float.{Float}
use robo_band.Util.Config.{
  Toml, Checked, ok, wrong_configuration, ◌>>=◌, merge_config, get_table, get_value,
}
use robo_band.Ctrl.BalanceSys.Create.{new_balance_sys}
use robo_band.Ctrl.BalanceSys.Create
use robo_band.App.RobotCreate.{name_of}

-- The name of a motor in the simulator, and its direction.
pub record MotorName : Type 0 where
  pub name : String
  pub dir : ℤ

pub record Settings {ℓ} (F : Type ℓ) : Type ℓ where
  pub balance_sys : Create.Created F
  pub inertial : String
  pub gyro : String
  pub wheel_motor_1 : MotorName
  pub wheel_motor_2 : MotorName
  pub joint_motor_1 : MotorName
  pub joint_motor_2 : MotorName

-- A robot, or the reasons for a null pointer.
pub data Created {ℓ} (F : Type ℓ) : Type ℓ where
  lqr_sim : Settings F → Created F
  parsing_failed no_robot_key not_a_string no_implementation initialization_failed : Created F

module _ {ℓ} {F T N : Type ℓ} ⦃f : Float F⦄ (toml : Toml F T N) where
  open toml use {get, value_int, value_string}

  unfoldable pub motor_name : T → String → String → Checked MotorName
  motor_name config name_key dir_key = do
    name ← get_value toml value_string config name_key
    dir ← get_value toml value_int config dir_key
    ok (record { name = name; dir = dir })

  unfoldable pub new_lqr_sim : T → Checked (Settings F)
  unfolding motor_name
  new_lqr_sim config = do
    ctrl ← get_table toml config "ctrl"
    balance ← get_table toml ctrl "balance_sys"
    balance_sys ← new_balance_sys toml balance
    inertial ← get_value toml value_string config "inertial"
    gyro ← get_value toml value_string config "gyro"
    wheel_motor_1 ← motor_name config "wheel_motor_1" "wheel_motor_1_dir"
    wheel_motor_2 ← motor_name config "wheel_motor_2" "wheel_motor_2_dir"
    joint_motor_1 ← motor_name config "joint_motor_1" "joint_motor_1_dir"
    joint_motor_2 ← motor_name config "joint_motor_2" "joint_motor_2_dir"
    ok (record {
      balance_sys = balance_sys;
      inertial = inertial;
      gyro = gyro;
      wheel_motor_1 = wheel_motor_1;
      wheel_motor_2 = wheel_motor_2;
      joint_motor_1 = joint_motor_1;
      joint_motor_2 = joint_motor_2;
    })

  -- The branch of LqrSim, for the user's configuration and what the parser gives for the default one.
  unfoldable pub create_lqr_sim : ℕ → T → Option T → Created F
  unfolding new_lqr_sim
  create_lqr_sim fuel user none = initialization_failed
  create_lqr_sim fuel user (some default) =
      elim (new_lqr_sim (merge_config toml fuel user default).1) [
        | wrong_configuration ↦ initialization_failed
        | ok settings ↦ lqr_sim settings
      ]

  unfoldable pub robot_create : ℕ → (String → Option T) → String → String → Created F
  unfolding create_lqr_sim
  robot_create fuel parse_file project_path user_config_path = elim (parse_file user_config_path) [
    | none ↦ parsing_failed
    | some user ↦ elim (get user "robot") [
      | none ↦ no_robot_key
      | some node ↦
          if str_eq (name_of toml node) "lqr_sim"
          then create_lqr_sim fuel user (parse_file (project_path ++ "/app/lqr_sim/default.toml"))
          else if str_eq (name_of toml node) "err"
          then not_a_string
          else no_implementation
    ]
  ]
