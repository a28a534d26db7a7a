-- ===== src/App/Aokee/Binding.antt =====
-- `Aokee::bindVirtualDev` of app/Aokee/Aokee.cc: which motor drives which joint.
pub mod Drive
pub mod Examples
use robo_band.Base.{ℕ, List, ◌++◌}
use robo_band.Virtual.Pointer.{Pointer}
use robo_band.Virtual.Motor.{MotorBinder, bind}
use robo_band.Ctrl.WheelLeggedChassis.{WheelLeggedChassis}

-- The chassis after, and the pointers that its motors delete; the i-th binder is that of `motor[i]`.
unfoldable pub bind_virtual_dev {ℓ κ} :
    {F : Type ℓ} {W : Type κ}
    → (ℕ → MotorBinder F W)
    → WheelLeggedChassis F W
    → WheelLeggedChassis F W × List Pointer
bind_virtual_dev binder chassis =
    let (wheel_0, deleted_0) = bind chassis.wheel_0 (binder 0) in
    let (joint_0, deleted_1) = bind chassis.leg_0.motor1 (binder 2) in
    let (joint_1, deleted_2) = bind chassis.leg_0.motor2 (binder 3) in
    let (wheel_1, deleted_3) = bind chassis.wheel_1 (binder 1) in
    let (joint_2, deleted_4) = bind chassis.leg_1.motor1 (binder 5) in
    let (joint_3, deleted_5) = bind chassis.leg_1.motor2 (binder 4) in
    (
      record chassis {
        wheel_0 = wheel_0;
        wheel_1 = wheel_1;
        leg_0 = record chassis.leg_0 { motor1 = joint_0; motor2 = joint_1 };
        leg_1 = record chassis.leg_1 { motor1 = joint_2; motor2 = joint_3 };
      },
      deleted_0 ++ (deleted_1 ++ (deleted_2 ++ (deleted_3 ++ (deleted_4 ++ deleted_5)))),
    )
