-- ===== src/App/LqrSim.antt =====
-- `class LqrSim` of app/lqr_sim/lqr_sim.hpp and app/lqr_sim/lqr_sim.cc: the virtual devices of its controller,
-- and what binding and destroying them deletes. Looking up the configuration is left out.
pub mod Create
pub mod Deletions
pub mod Examples
use robo_band.Base.{ℕ, List, ◌++◌}
use robo_band.Virtual.Pointer.{Pointer}
use robo_band.Virtual.Motor.{Motor, MotorBinder}
use robo_band.Virtual.Motor
use robo_band.Virtual.Imu.{Imu, ImuBinder}
use robo_band.Virtual.Imu
use robo_band.Dev.WebotsMotor
use robo_band.Dev.WebotsImu

-- The devices of `balance_sys`.
pub record LqrSim {ℓ κ} (F : Type ℓ) (W : Type κ) : Type (ℓ ⊔ κ) where
  pub imu : Imu
  pub wheel_0 : Motor F W
  pub wheel_1 : Motor F W
  pub joint_0 : Motor F W
  pub joint_1 : Motor F W

-- Where the members `angle` and `speed` of a device are, and what its `setTorque` does.
pub record Device {ℓ κ} (F : Type ℓ) (W : Type κ) : Type (ℓ ⊔ κ) where
  pub angle : ℕ
  pub speed : ℕ
  pub set_torque : F → W → W

-- The devices `wheel_motor`, `joint_motor` and `imu`.
pub record Devices {ℓ κ} (F : Type ℓ) (W : Type κ) : Type (ℓ ⊔ κ) where
  pub wheel_motor_0 : Device F W
  pub wheel_motor_1 : Device F W
  pub joint_motor_0 : Device F W
  pub joint_motor_1 : Device F W
  pub imu_angle : ℕ
  pub imu_speed : ℕ

module _ {ℓ κ} {F : Type ℓ} {W : Type κ} where
  abbrev pub binder_of : Device F W → MotorBinder F W
  binder_of device = WebotsMotor.binder device.set_torque device.angle device.speed

  -- The object after, and the pointers that are deleted.
  unfoldable pub bind_virtual_dev : Devices F W → LqrSim F W → LqrSim F W × List Pointer
  bind_virtual_dev d sim =
      let (wheel_0, deleted_0) = Motor.bind sim.wheel_0 (binder_of d.wheel_motor_0) in
      let (wheel_1, deleted_1) = Motor.bind sim.wheel_1 (binder_of d.wheel_motor_1) in
      let (joint_0, deleted_2) = Motor.bind sim.joint_0 (binder_of d.joint_motor_0) in
      let (joint_1, deleted_3) = Motor.bind sim.joint_1 (binder_of d.joint_motor_1) in
      let (imu, deleted_4) = Imu.bind sim.imu (WebotsImu.binder d.imu_angle d.imu_speed) in
      (
        record {
          imu = imu;
          wheel_0 = wheel_0;
          wheel_1 = wheel_1;
          joint_0 = joint_0;
          joint_1 = joint_1;
        },
        deleted_0 ++ (deleted_1 ++ (deleted_2 ++ (deleted_3 ++ deleted_4))),
      )

  -- The destructor destroys the members of `balance_sys`, the last one first.
  unfoldable pub destroy : LqrSim F W → List Pointer
  destroy sim =
      Motor.destroy sim.joint_1
      ++ (Motor.destroy sim.joint_0
          ++ (Motor.destroy sim.wheel_1 ++ (Motor.destroy sim.wheel_0 ++ Imu.destroy sim.imu)))

  -- The constructor binds once, `Robot::run` a second time.
  unfoldable pub new_and_run : Devices F W → LqrSim F W → LqrSim F W × (List Pointer × List Pointer)
  new_and_run d sim =
      let (bound, deleted) = bind_virtual_dev d sim in
      let (bound', deleted') = bind_virtual_dev d bound in (bound', (deleted, deleted'))
