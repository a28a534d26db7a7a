-- ===== src/Ctrl.antt =====
-- The controllers, and the threads that run them: src/ctrl.
pub mod Runner
pub mod BalanceSys
pub mod WheelLeggedChassis
