-- ===== src/App/LqrSim/Examples.antt =====
-- Four motors and an IMU at the addresses 100 to 109.
use robo_band.Base.{ℕ, ◌+◌, ◌*◌, ◌≡◌, refl, [], ◌∷◌}
use robo_band.Virtual.Pointer.{member}
use robo_band.Virtual.Motor.{new_motor}
use robo_band.Virtual.Imu.{new_imu}
use robo_band.App.LqrSim.{LqrSim, Device, Devices, new_and_run, destroy}
use robo_band.App.LqrSim.Deletions.{own, new_and_run-members}

abbrev device : ℕ → Device ℕ ℕ
device i = record { angle = 100 + 2 * i; speed = 101 + 2 * i; set_torque = λ torque w. torque }

abbrev devices : Devices ℕ ℕ
devices = record {
  wheel_motor_0 = device 0;
  wheel_motor_1 = device 1;
  joint_motor_0 = device 2;
  joint_motor_1 = device 3;
  imu_angle = 108;
  imu_speed = 109;
}

abbrev sim : LqrSim ℕ ℕ
sim = record {
  imu = new_imu 0 1;
  wheel_0 = new_motor 2 3;
  wheel_1 = new_motor 4 5;
  joint_0 = new_motor 6 7;
  joint_1 = new_motor 8 9;
}

new_and_run-members_example :
    let (bound, deleted) = new_and_run devices sim in
    (deleted.0 ≡ own sim)
    × (deleted.1
        ≡ member 100
          ∷ member 101
          ∷ member 102
          ∷ member 103
          ∷ member 104
          ∷ member 105
          ∷ member 106
          ∷ member 107
          ∷ [])
    × (destroy bound
        ≡ member 106
          ∷ member 107
          ∷ member 104
          ∷ member 105
          ∷ member 102
          ∷ member 103
          ∷ member 100
          ∷ member 101
          ∷ [])
unfolding new_motor new_imu
new_and_run-members_example = new_and_run-members devices sim (refl, refl, refl, refl, refl)
