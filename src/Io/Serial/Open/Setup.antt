-- ===== src/Io/Serial/Open/Setup.antt =====
-- When the port is open, and what its settings are then.
use robo_band.Base.{ℕ, ◌≡◌, Option, none, some, [], ◌∷◌, arith}
use robo_band.Io.SystemCalls.{try_all}
use robo_band.Io.Serial.Open.{
  Call, open_fd, flock, tcgetattr, tcsetattr, tcflush, Termios, set_up, open_port,
}

-- In whatever way the system calls fail: the constructor makes `open`, `flock`, `tcgetattr`,
-- `tcsetattr` and `tcflush` up to the first that fails, and the process then exits with the code of
-- that one. The settings of the terminal are changed only if the first four succeed.
pub open_port-first_failure :
    (errno_of : Call → Option ℕ) (baudrate : ℕ) (tty : Termios)
    → let r = open_port errno_of baudrate tty in
      (r.0 ≡ try_all errno_of (open_fd ∷ flock ∷ tcgetattr ∷ tcsetattr ∷ tcflush ∷ []))
      × (r.1 ≡ elim (try_all errno_of (open_fd ∷ flock ∷ tcgetattr ∷ tcsetattr ∷ [])).exit_code [
        | none ↦ set_up baudrate tty
        | some _ ↦ tty
      ])
unfolding open_port
open_port-first_failure errno_of baudrate tty = ground arith
