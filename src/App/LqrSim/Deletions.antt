-- ===== src/App/LqrSim/Deletions.antt =====
-- What a simulated robot deletes in its life.
use robo_band.Base.{◌≡◌, refl, List, [], ◌∷◌, false, none}
use robo_band.Virtual.Pointer.{Pointer, member}
use robo_band.Virtual.Motor.{Motor, is_bound}
use robo_band.Virtual.Motor
use robo_band.Virtual.Imu
use robo_band.Dev.WebotsMotor
use robo_band.Dev.WebotsImu
use robo_band.App.LqrSim.{LqrSim, Devices, bind_virtual_dev, destroy, new_and_run}

module _ {F W : Type 0} where
  -- The memory that the virtual devices allocated for themselves.
  abbrev pub own : LqrSim F W → List Pointer
  own sim =
      sim.wheel_0.angle ∷ sim.wheel_0.speed ∷ sim.wheel_1.angle ∷ sim.wheel_1.speed
      ∷ sim.joint_0.angle ∷ sim.joint_0.speed ∷ sim.joint_1.angle ∷ sim.joint_1.speed
      ∷ sim.imu.angle ∷ sim.imu.speed ∷ []

  abbrev pub IsUnbound : LqrSim F W → Type 0
  IsUnbound sim =
      (sim.wheel_0.actual ≡ none)
      × (sim.wheel_1.actual ≡ none)
      × (sim.joint_0.actual ≡ none)
      × (sim.joint_1.actual ≡ none)
      × (sim.imu.is_bound ≡ false)

  -- Of virtual devices that were never bound: binding in the constructor deletes the memory that they
  -- allocated; binding again in `run` deletes the members of the four motors of the robot, which were
  -- never allocated; and destroying the robot deletes these members once more.
  pub new_and_run-members :
      (d : Devices F W) (sim : LqrSim F W)
      → IsUnbound sim
      → let (bound, deleted) = new_and_run d sim in
        (deleted.0 ≡ own sim)
        × (deleted.1
            ≡ member d.wheel_motor_0.angle
              ∷ member d.wheel_motor_0.speed
              ∷ member d.wheel_motor_1.angle
              ∷ member d.wheel_motor_1.speed
              ∷ member d.joint_motor_0.angle
              ∷ member d.joint_motor_0.speed
              ∷ member d.joint_motor_1.angle
              ∷ member d.joint_motor_1.speed
              ∷ [])
        × (destroy bound
            ≡ member d.joint_motor_1.angle
              ∷ member d.joint_motor_1.speed
              ∷ member d.joint_motor_0.angle
              ∷ member d.joint_motor_0.speed
              ∷ member d.wheel_motor_1.angle
              ∷ member d.wheel_motor_1.speed
              ∷ member d.wheel_motor_0.angle
              ∷ member d.wheel_motor_0.speed
              ∷ [])
  unfolding new_and_run bind_virtual_dev destroy Motor.bind Motor.destroy is_bound Imu.bind
      Imu.destroy WebotsMotor.binder WebotsImu.binder
  new_and_run-members d sim (w0, w1, j0, j1, i) = (rw (w0, w1, j0, j1, i) refl, refl, refl)
