-- ===== src/Util/Time/Long.antt =====
-- `incTime` and `getTimeDuration` of src/util/util.hpp with the `long` of 64 bits that they compute in: an
-- operation whose result does not fit is undefined in C++, and is none here.
pub mod Fits
pub mod Examples
use robo_band.Base.{ℕ, zero, suc, true, false, ◌&&◌, leb, Option, none, some, if◌then◌else◌}
use robo_band.Base.Int.{ℤ, pos, pos_part, neg_part, ◌+ℤ◌, ◌-ℤ◌, ◌*ℤ◌, leb_ℤ}
use robo_band.Util.Time.{Timespec, ns, sec, carries}

infixl 5 ◌>>=◌
abbrev pub ◌>>=◌ {ℓ κ} : {A : Type ℓ} {B : Type κ} → Option A → (A → Option B) → Option B
some a >>= f = f a
none >>= f = none

-- The largest `long`; the smallest is -9223372036854775808.
abbrev pub long_max : ℕ
long_max = 9223372036854775807

unfoldable pub checked : ℤ → Option ℤ
checked z = if leb (pos_part z) long_max && leb (neg_part z) (suc long_max) then some z else none

abbrev pub add_long : ℤ → ℤ → Option ℤ
add_long a b = checked (a +ℤ b)

abbrev pub sub_long : ℤ → ℤ → Option ℤ
sub_long a b = checked (a -ℤ b)

abbrev pub mul_long : ℤ → ℤ → Option ℤ
mul_long a b = checked (a *ℤ b)

-- The `while` of `incTime`; it is none also when the fuel is used up.
unfoldable pub carry_loop_long : ℕ → Timespec → Option Timespec
carry_loop_long zero t = none
carry_loop_long (suc fuel) t =
    let rest = do
      secs ← add_long t.tv_sec (pos 1)
      nsecs ← sub_long t.tv_nsec (sec ns)
      carry_loop_long fuel (record { tv_sec = secs; tv_nsec = nsecs })
    in if leb_ℤ (sec ns) t.tv_nsec then rest else some t

unfoldable pub inc_time_long : Timespec → ℤ → Option Timespec
inc_time_long t time_ns = do
  nsecs ← add_long t.tv_nsec time_ns
  carry_loop_long (suc (carries nsecs)) (record t { tv_nsec = nsecs })

unfoldable pub get_time_duration_long : Timespec → Timespec → Option ℤ
get_time_duration_long t_start t_end = do
  nsecs ← sub_long t_end.tv_nsec t_start.tv_nsec
  secs ← sub_long t_end.tv_sec t_start.tv_sec
  scaled ← mul_long secs (sec ns)
  add_long nsecs scaled
