-- ===== src/Ctrl/BalanceSys/Create.antt =====
-- The constructor of BalanceSys in src/ctrl/balance_sys/balance_sys.cc: the constants and the gains that it
-- reads from the configuration, and the numbers that `ctrlLoop` sends for plotting.
pub mod Layout
use Prim.Native.String.{String}
use robo_band.Base.{ℕ, ◌*◌, Option, none, some, List, [], ◌∷◌, take, drop}
use robo_band.Base.Int.{ℤ}
use robo_band.Base.Float.{Float, ◌*ᶠ◌}
use robo_band.Util.Config.{
  Toml, Checked, ok, wrong_configuration, ◌>>=◌, get_value, get_array, element_float,
}
use robo_band.Ctrl.BalanceSys.{BalanceSys, State, Torques}

-- `K`: the rows of the matrix of four rows and ten columns.
pub record Gains {ℓ} (F : Type ℓ) : Type ℓ where
  pub row_0 : List F
  pub row_1 : List F
  pub row_2 : List F
  pub row_3 : List F

-- The array fills a matrix of ten rows by its four columns, which is transposed.
unfoldable pub gains_of {ℓ} : {F : Type ℓ} → List F → Gains F
gains_of k = record {
  row_0 = take 10 k;
  row_1 = take 10 (drop 10 k);
  row_2 = take 10 (drop 20 k);
  row_3 = take 10 (drop 30 k);
}

-- What the constructor keeps; the cycle is read as an `int`.
pub record Created {ℓ} (F : Type ℓ) : Type ℓ where
  pub cycle_ms : ℤ
  pub constants : BalanceSys F
  pub gains : Gains F

module _ {ℓ} {F T N : Type ℓ} ⦃f : Float F⦄ (toml : Toml F T N) where
  open toml use {value_int, value_float}

  unfoldable pub new_balance_sys : T → Checked (Created F)
  new_balance_sys config = do
    cycle_ms ← get_value toml value_int config "cycle_ms"
    radius_wheel ← get_value toml value_float config "radius_wheel"
    s_ref_max ← get_value toml value_float config "s_ref_max"
    phi_ref_max ← get_value toml value_float config "phi_ref_max"
    theta_l_ref_max ← get_value toml value_float config "theta_l_ref_max"
    theta_b_ref_max ← get_value toml value_float config "theta_b_ref_max"
    wheel_torque_max ← get_value toml value_float config "wheel_torque_max"
    joint_torque_max ← get_value toml value_float config "joint_torque_max"
    k ← get_array toml (element_float toml) (4 * 10) config "K"
    ok (record {
      cycle_ms = cycle_ms;
      constants = record {
        radius_wheel = radius_wheel;
        s_ref_max = s_ref_max;
        phi_ref_max = phi_ref_max;
        theta_l_ref_max = theta_l_ref_max;
        theta_b_ref_max = theta_b_ref_max;
        wheel_torque_max = wheel_torque_max;
        joint_torque_max = joint_torque_max;
      };
      gains = gains_of k;
    })

-- The numbers of `Data` that are sent, for the entries K(0, j), the state and the product.
unfoldable pub plot_data {ℓ} : {F : Type ℓ} ⦃f : Float F⦄ → (ℕ → F) → State F → Torques F → List F
plot_data k0 x ctrl_vec =
    x.s *ᶠ k0 0
    ∷ x.phi *ᶠ k0 2
    ∷ x.theta_l_1 *ᶠ k0 4
    ∷ x.theta_l_2 *ᶠ k0 6
    ∷ x.theta_b *ᶠ k0 8
    ∷ ctrl_vec.wheel_0
    ∷ ctrl_vec.wheel_1
    ∷ ctrl_vec.joint_0
    ∷ ctrl_vec.joint_1
    ∷ []
