-- ===== src/Lib.antt =====
-- RoboBand is a framework for robot controllers: IOs read from ports in threads of their own and hand what
-- they read to the devices that registered for it, devices keep the last report and send commands, virtual
-- devices are bound to them, and controllers run periodically on the virtual devices. The sources are in
-- src/ of the repository; the robots themselves are in app/.
--
-- The parts, and the files that model them:
--   Util/Time      incTime, getTimeDuration, sleep (src/util/util.hpp), setThisThreadRealTime (src/util/util.cc)
--   Util/Math      abs_limit, abs (src/util/util.hpp)
--   Util/Config    mergeConfig, getTable (src/util/util.cc), getValue, getArray (src/util/util.hpp)
--   Util/Host      to_in_addr (src/util/util.cc)
--   Util/Siso      the operators on systems, limit, rad_format (src/util/siso.hpp)
--   Util/Pid       Pid (src/util/siso.hpp, src/util/siso.cc)
--   Io/Lifecycle   Io: run, stop, the destructor (src/io/io.hpp); Io/Lifecycle/Life has them with the reading thread
--   Io/Key         IoKey::thread_func (src/io/io.hpp)
--   Io/NoKey       IoNoKey::thread_func (src/io/io.hpp)
--   Io/Socket      Socket: read, send, opening and closing (src/io/socket.cc); Io/Socket/Thread is its thread
--   Io/Webots      Webots (src/io/webots.hpp, src/io/webots.cc)
--   Io/Serial      Serial: opening and closing, the head table, read, send, baudrate
--                  (src/io/serial.hpp, src/io/serial.cc); Io/Serial/Thread is the thread of a port
--   Dev/Bind       the constructors of Dev (src/dev/dev.hpp)
--   Dev/UnitreeMotor   UnitreeMotor (src/dev/unitree_motor.hpp, src/dev/unitree_motor.cc)
--   Dev/WebotsMotor    WebotsMotor (src/dev/webots_motor.hpp, src/dev/webots_motor.cc), two accessors of src/io/webots.cc
--   Dev/WebotsImu      WebotsImu (src/dev/webots_imu.hpp, src/dev/webots_imu.cc)
--   Virtual/Motor  Motor and MotorBinder (src/virtual/motor.hpp)
--   Virtual/Imu    Imu and ImuBinder (src/virtual/imu.hpp)
--   Virtual/FiveLink   FiveLink (src/virtual/five_link.hpp, src/virtual/five_link.cc)
--   Ctrl/Runner    Runner: run, stop, thread_func (src/ctrl/runner.cc)
--   Ctrl/Runner/Webots    the same in the build with USE_WEBOTS, and bind
--   Ctrl/BalanceSys    BalanceSys (src/ctrl/balance_sys/balance_sys.cc); its datagrams for plotting are in Plot
--   Ctrl/WheelLeggedChassis    WheelLeggedChassis
--                  (src/ctrl/wheel_legged_chassis/wheel_legged_chassis.hpp)
--   Robot          Robot::run (src/robot/robot.cc), over the interface of Robot/Threads that Io and Runner meet
--   Robot/Running  its main thread with the threads of the IOs and the controllers
--   Robot/Webots   the same in the build with USE_WEBOTS; Robot/Webots/System has the threads
--   App/Aokee      Aokee::devInit and bindVirtualDev (app/Aokee/Aokee.cc); App/Aokee/Cycle puts port, motors,
--                  bindings and controller together
--   App/LqrSim     LqrSim (app/lqr_sim/lqr_sim.cc), robotCreate in the build with USE_WEBOTS
--   App/Main       main, SigintHandler (app/main.cc)
--   App/RobotCreate    robotCreate (app/robot_create.cc), the reads of the constructors (app/Aokee/Aokee.cc)
--   Base           the helpers: lists, integers, floats, tests
--
-- How state and operations correspond: a class is a record of the same name with the members that its
-- methods read or write, a constructor is `new_` and the name, a method is a function from the object (and
-- what the method is given) to the object after it (and what it returns), in snake_case. What a method
-- does outside the object, as starting a thread, deleting a pointer or sending bytes, is a part of its
-- result. What comes from outside, as the bytes of a port, is an argument: a list of events or of reads.
-- A thread's loop runs over such a list, which ends where `running` is false.
--
-- Interfaces: `Float` in Base/Float holds the operations on floats that the code uses, without laws; the
-- order laws of IEEE floats are the hypothesis `IsOrdered` of the theorems that need them, what one needs of a
-- cast is `IsCast` of Dev/UnitreeMotor/Torque, and
-- Base/Float/Milli is an instance on whole thousandths and a NaN that meets them. `Toml` in Util/Config
-- holds the operations of toml++, `IsToml` what is relied on, and Util/Config/Tree an instance that meets it. The CRC of
-- CRC++ is a function that is a parameter of Dev/UnitreeMotor, and the products of Eigen are parameters of the
-- controllers; `Trig` in Base/Float/Trig holds the functions of <math.h> that the kinematics calls.
--
-- Numbers: bytes are numbers below 256 where it matters; the packed frames wrap at 8, 16 and 32 bits
-- (Dev/UnitreeMotor/Words). `long` and `int` elsewhere are integers without a bound; Util/Time/Long has the
-- time functions with a `long` of 64 bits.
--
-- Fuel: `merge_config` takes fuel for the nesting of tables, and `Util/Config/Fuel` says how much is enough;
-- the loop of `inc_time` is given one round for each whole second that is carried and one more.
--
-- Threads: the main thread and the runners of the build with USE_WEBOTS meet at a barrier. Robot/Webots/System is
-- a step relation in which any thread may make the next step; `Reach` is reachability by it, and the theorems
-- on it hold for every interleaving. A step is one access to what the threads share. Io/Lifecycle/Life is such a
-- relation for an IO's reading thread and the owner of the object, and Robot/Running for all threads of a robot
-- in the build without Webots; there a round of a thread's loop may be one that never ends. In Robot/Webots a task
-- that is begun has an end.
--
-- Memory: the buffer of Socket is the bytes from `data` on. Socket::read writes into them whatever their number is, and
-- Io/Socket/Thread, which knows the number, gives none once a datagram is written past the end.
--
-- Not modelled: log lines (but those of a motor's error and of Socket::read); the scheduler; what threads read of
-- each other's devices while these are written; the simulator itself; the plotting thread of main.
pub mod Base
pub mod App
pub mod Ctrl
pub mod Util
pub mod Io
pub mod Robot
pub mod Dev
pub mod Virtual
