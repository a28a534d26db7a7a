-- ===== src/Io/Serial/Open/Examples.antt =====
-- A port that another process has locked, and the flags of one that is free.
use robo_band.Base.{ℕ, ◌≡◌, refl, true, false, Option, none, some, [], ◌∷◌}
use robo_band.Io.SystemCalls.{exits}
use robo_band.Io.Serial.Open.{Call, open_fd, flock, Termios, set_up, open_port}
use robo_band.Io.Serial.Open.Setup.{open_port-first_failure}

abbrev cooked : Termios
cooked = record {
  c_iflag = λ i. true;
  c_oflag = λ i. true;
  c_cflag = λ i. true;
  c_lflag = λ i. true;
  vtime = 1;
  vmin = 1;
  speed = 13;
}

abbrev locked : Call → Option ℕ
locked flock = some 11
locked _ = none

-- Two stop bits are off, the receiver stays on, and the second bit of the size is set again.
flags :
    ((set_up 4107 cooked).c_cflag 6 ≡ false)
    × ((set_up 4107 cooked).c_cflag 7 ≡ true)
    × ((set_up 4107 cooked).c_cflag 5 ≡ true)
unfolding set_up
flags = (refl, refl, refl)

open_port-first_failure_example :
    let r = open_port locked 4107 cooked in (r.0 ≡ exits 11 (open_fd ∷ flock ∷ [])) × (r.1 ≡ cooked)
open_port-first_failure_example = open_port-first_failure locked 4107 cooked
