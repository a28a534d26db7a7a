-- ===== src/App.antt =====
-- The robots and the program that runs them: app.
pub mod Aokee
pub mod RobotCreate
pub mod LqrSim
pub mod Main
