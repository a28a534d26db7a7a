-- ===== src/Dev.antt =====
-- The devices of src/dev.
pub mod Bind
pub mod UnitreeMotor
pub mod WebotsMotor
pub mod WebotsImu
