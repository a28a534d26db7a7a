-- ===== src/Virtual.antt =====
-- The virtual devices of src/virtual.
pub mod Pointer
pub mod Motor
pub mod Imu
pub mod FiveLink
