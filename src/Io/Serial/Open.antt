-- ===== src/Io/Serial/Open.antt =====
-- How the constructor and the destructor of Serial open, set up and close the terminal: src/io/serial.cc. The
-- flags are the bits of a word, as <termios.h> of Linux numbers them.
pub mod Setup
pub mod Examples
use robo_band.Base.{ℕ, Bool, true, false, Option, none, some, List, [], ◌∷◌, ◌==◌, if◌then◌else◌}
use robo_band.Io.SystemCalls.{Made, exits, succeeds}

pub data Call : Type 0 where
  open_fd flock tcgetattr tcsetattr tcflush close : Call

-- A word of flags: is a bit set?
abbrev pub Flags : Type 0
Flags = ℕ → Bool

-- `termios`, but for the speed and the control characters that are left alone.
pub record Termios : Type 0 where
  pub c_iflag : Flags
  pub c_oflag : Flags
  pub c_cflag : Flags
  pub c_lflag : Flags
  pub vtime : ℕ
  pub vmin : ℕ
  pub speed : ℕ

abbrev pub put : Bool → List ℕ → Flags → Flags
put on [] flags i = flags i
put on (bit ∷ bits) flags i = if i == bit then on else put on bits flags i

-- PARODD, PARENB, CSTOPB, CSIZE (two bits), CRTSCTS.
abbrev pub cleared_cflags : List ℕ
cleared_cflags = 9 ∷ 8 ∷ 6 ∷ 4 ∷ 5 ∷ 31 ∷ []

-- CS8 (two bits), CREAD, CLOCAL.
abbrev pub set_cflags : List ℕ
set_cflags = 4 ∷ 5 ∷ 7 ∷ 11 ∷ []

-- ICANON, ECHO, ECHOE, ECHOK, ECHONL, ECHOCTL, ISIG, IEXTEN.
abbrev pub cleared_lflags : List ℕ
cleared_lflags = 1 ∷ 3 ∷ 4 ∷ 5 ∷ 6 ∷ 9 ∷ 0 ∷ 15 ∷ []

-- IXON, IXOFF, IXANY, and IGNBRK, BRKINT, PARMRK, ISTRIP, INLCR, IGNCR, ICRNL, IUCLC.
abbrev pub cleared_iflags : List ℕ
cleared_iflags = 10 ∷ 12 ∷ 11 ∷ 0 ∷ 1 ∷ 3 ∷ 5 ∷ 6 ∷ 7 ∷ 8 ∷ 9 ∷ []

-- OPOST, ONLCR.
abbrev pub cleared_oflags : List ℕ
cleared_oflags = 0 ∷ 2 ∷ []

unfoldable pub set_up : ℕ → Termios → Termios
set_up baudrate tty = record {
  c_cflag = put true set_cflags (put false cleared_cflags tty.c_cflag);
  c_lflag = put false cleared_lflags tty.c_lflag;
  c_iflag = put false cleared_iflags tty.c_iflag;
  c_oflag = put false cleared_oflags tty.c_oflag;
  vtime = 0;
  vmin = 0;
  speed = baudrate;
}

-- The calls of the constructor, and the settings of the terminal after them.
unfoldable pub open_port : (Call → Option ℕ) → ℕ → Termios → Made Call × Termios
open_port errno_of baudrate tty = elim (errno_of open_fd) [
  | some e ↦ (exits e (open_fd ∷ []), tty)
  | none ↦ elim (errno_of flock) [
    | some e ↦ (exits e (open_fd ∷ flock ∷ []), tty)
    | none ↦ elim (errno_of tcgetattr) [
      | some e ↦ (exits e (open_fd ∷ flock ∷ tcgetattr ∷ []), tty)
      | none ↦ elim (errno_of tcsetattr) [
        | some e ↦ (exits e (open_fd ∷ flock ∷ tcgetattr ∷ tcsetattr ∷ []), tty)
        | none ↦ elim (errno_of tcflush) [
          | some e ↦ (
            exits e (open_fd ∷ flock ∷ tcgetattr ∷ tcsetattr ∷ tcflush ∷ []),
            set_up baudrate tty,
          )
          | none ↦ (
            succeeds (open_fd ∷ flock ∷ tcgetattr ∷ tcsetattr ∷ tcflush ∷ []),
            set_up baudrate tty,
          )
        ]
      ]
    ]
  ]
]

-- The destructor only logs the failures of its calls.
unfoldable pub close_port : Made Call
close_port = succeeds (tcflush ∷ close ∷ [])
