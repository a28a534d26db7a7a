-- ===== src/Io.antt =====
-- The inputs and outputs of src/io: the base classes of src/io/io.hpp and the serial port of
-- src/io/serial.hpp and src/io/serial.cc, the socket, and the simulator.
pub mod Lifecycle
pub mod Key
pub mod NoKey
pub mod Serial
pub mod SystemCalls
pub mod Socket
pub mod Webots
