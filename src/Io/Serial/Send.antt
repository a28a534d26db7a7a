-- ===== src/Io/Serial/Send.antt =====
-- `Serial::baudrate` and `Serial::send` of src/io/serial.hpp and src/io/serial.cc.
use robo_band.Base.{ℕ, suc, ◌/◌, ◌*◌, ◌≤◌, ◌<◌, ◌≡◌, ◌≢◌, refl, arith, if◌then◌else◌}
use robo_band.Base.Int.{*ℤ_pos, /ℤ_pos, ℤ, pos, negsuc, pos_part, ◌*ℤ◌, ◌/ℤ◌, ltb_ℤ, eqb_ℤ}
use robo_band.Util.Time.{ns, us, sec}

-- `Bbaudrate`: the constants of termios.h that `baudrate` knows, and any other.
pub data Speed : Type 0 where
  b0 b50 b75 b110 b134 b150 b200 b300 b600 b1200 b1800 b2400 b4800 b9600 b19200 : Speed
  b38400 b57600 b115200 b230400 b460800 b500000 b576000 b921600 b1000000 b1152000 : Speed
  b1500000 b2000000 b2500000 b3000000 b3500000 b4000000 unknown : Speed

unfoldable pub baudrate : Speed → ℤ
baudrate b0 = pos 0
baudrate b50 = pos 50
baudrate b75 = pos 75
baudrate b110 = pos 110
baudrate b134 = pos 134
baudrate b150 = pos 150
baudrate b200 = pos 200
baudrate b300 = pos 300
baudrate b600 = pos 600
baudrate b1200 = pos 1200
baudrate b1800 = pos 1800
baudrate b2400 = pos 2400
baudrate b4800 = pos 4800
baudrate b9600 = pos 9600
baudrate b19200 = pos 19200
baudrate b38400 = pos 38400
baudrate b57600 = pos 57600
baudrate b115200 = pos 115200
baudrate b230400 = pos 230400
baudrate b460800 = pos 460800
baudrate b500000 = pos 500000
baudrate b576000 = pos 576000
baudrate b921600 = pos 921600
baudrate b1000000 = pos 1000000
baudrate b1152000 = pos 1152000
baudrate b1500000 = pos 1500000
baudrate b2000000 = pos 2000000
baudrate b2500000 = pos 2500000
baudrate b3000000 = pos 3000000
baudrate b3500000 = pos 3500000
baudrate b4000000 = pos 4000000
baudrate unknown = negsuc 0

-- What `send` does after `write` returned `ret`: it fails, divides by zero, or sleeps for some
-- nanoseconds and succeeds.
pub data Sent : Type 0 where
  write_failed : Sent
  divided_by_zero : Sent
  slept : ℤ → Sent

unfoldable pub send : Speed → ℤ → ℤ → ℤ → Sent
unfolding baudrate
send speed ret len sleep_us =
    if ltb_ℤ ret (pos 0)
    then write_failed
    else if eqb_ℤ sleep_us (negsuc 0)
    then (if eqb_ℤ (baudrate speed) (pos 0)
        then divided_by_zero
        else slept (len *ℤ sec ns /ℤ baudrate speed))
    else slept (sleep_us *ℤ us ns)

-- The time that some bytes take on the line, in nanoseconds, times the rate: a byte has a start bit,
-- eight data bits and a stop bit, as the constructor sets the terminal up.
abbrev pub wire_bits : ℕ → ℕ
wire_bits len = 10 * len

rate_positive :
    (speed : Speed) → speed ≢ b0 → speed ≢ unknown → (k : ℕ) × (baudrate speed ≡ pos (suc k))
unfolding baudrate
rate_positive b0 h h' = absurd (h refl)
rate_positive unknown h h' = absurd (h' refl)
rate_positive b50 h h' = (49, refl)
rate_positive b75 h h' = (74, refl)
rate_positive b110 h h' = (109, refl)
rate_positive b134 h h' = (133, refl)
rate_positive b150 h h' = (149, refl)
rate_positive b200 h h' = (199, refl)
rate_positive b300 h h' = (299, refl)
rate_positive b600 h h' = (599, refl)
rate_positive b1200 h h' = (1199, refl)
rate_positive b1800 h h' = (1799, refl)
rate_positive b2400 h h' = (2399, refl)
rate_positive b4800 h h' = (4799, refl)
rate_positive b9600 h h' = (9599, refl)
rate_positive b19200 h h' = (19199, refl)
rate_positive b38400 h h' = (38399, refl)
rate_positive b57600 h h' = (57599, refl)
rate_positive b115200 h h' = (115199, refl)
rate_positive b230400 h h' = (230399, refl)
rate_positive b460800 h h' = (460799, refl)
rate_positive b500000 h h' = (499999, refl)
rate_positive b576000 h h' = (575999, refl)
rate_positive b921600 h h' = (921599, refl)
rate_positive b1000000 h h' = (999999, refl)
rate_positive b1152000 h h' = (1151999, refl)
rate_positive b1500000 h h' = (1499999, refl)
rate_positive b2000000 h h' = (1999999, refl)
rate_positive b2500000 h h' = (2499999, refl)
rate_positive b3000000 h h' = (2999999, refl)
rate_positive b3500000 h h' = (3499999, refl)
rate_positive b4000000 h h' = (3999999, refl)

-- With the default pause, a message of `len` bytes that was written at a known rate is followed by a
-- sleep of a tenth of the time that its bits take on the line, rounded down to a whole nanosecond.
pub send_too_short :
    (speed : Speed) (ret len : ℕ)
    → speed ≢ b0
    → speed ≢ unknown
    → (t : ℕ) × (send speed (pos ret) (pos len) (negsuc 0) ≡ slept (pos t))
      × (10 * (t * pos_part (baudrate speed)) ≤ wire_bits len * 1000000000)
      × (wire_bits len * 1000000000 < 10 * (suc t * pos_part (baudrate speed)))
unfolding send
send_too_short speed ret len known known' =
    let (k, e) = rate_positive speed known known' in
    (
      len * 1000000000 / suc k,
      rw (e, *ℤ_pos, /ℤ_pos) (ground arith),
      rw e (grind arith),
      rw e (grind arith),
    )
