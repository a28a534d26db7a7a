-- ===== src/Util.antt =====
-- The utilities of src/util.
pub mod Time
pub mod Siso
pub mod Pid
pub mod Host
pub mod Config
pub mod Math
