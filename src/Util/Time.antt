-- ===== src/Util/Time.antt =====
-- Time keeping: the unit constants, `incTime`, `getTimeDuration`, `sleep` and the scheduling
-- attributes of src/util/util.hpp and src/util/util.cc. A `long` is an integer without a bound here;
-- Long has `incTime` and `getTimeDuration` with one of 64 bits.
pub mod Carry
pub mod Realtime
pub mod Long
pub mod Examples
use robo_band.Base.{ℕ, zero, suc, ◌*◌, ◌/◌, if◌then◌else◌}
use robo_band.Base.Int.{ℤ, pos, pos_part, ◌+ℤ◌, ◌-ℤ◌, ◌*ℤ◌, leb_ℤ}

-- `Ns`, `Us<N>`, `Ms<N>` and `Sec<N>`: the unit in nanoseconds, over a unit of N nanoseconds.
abbrev pub ns : ℕ
ns = 1

abbrev pub us : ℕ → ℤ
us n = pos (1000 / n)

abbrev pub ms : ℕ → ℤ
ms n = pos (1000000 / n)

abbrev pub sec : ℕ → ℤ
sec n = pos (1000000000 / n)

pub record Timespec : Type 0 where
  pub tv_sec : ℤ
  pub tv_nsec : ℤ

-- The `while` of `incTime`; `Carry` shows that the fuel of `inc_time` lets it end by its test.
unfoldable pub carry_loop : ℕ → Timespec → Timespec
carry_loop zero t = t
carry_loop (suc fuel) t =
    let rest =
      carry_loop fuel (record { tv_sec = t.tv_sec +ℤ pos 1; tv_nsec = t.tv_nsec -ℤ sec ns }) in
    if leb_ℤ (sec ns) t.tv_nsec then rest else t

abbrev pub carries : ℤ → ℕ
carries nsec = pos_part nsec / 1000000000

unfoldable pub inc_time : Timespec → ℤ → Timespec
inc_time t time_ns =
    let nsec = t.tv_nsec +ℤ time_ns in carry_loop (suc (carries nsec)) (record t { tv_nsec = nsec })

unfoldable pub get_time_duration : Timespec → Timespec → ℤ
get_time_duration t_start t_end =
    (t_end.tv_nsec -ℤ t_start.tv_nsec) +ℤ (t_end.tv_sec -ℤ t_start.tv_sec) *ℤ sec ns

-- `sleep` reads the monotonic clock and sleeps until the time that this computes.
unfoldable pub sleep_until : Timespec → ℤ → Timespec
unfolding inc_time
sleep_until now sleep_ns = inc_time now sleep_ns

-- `struct sched_attr`, and what `setThisThreadRealTime` fills in. SCHED_DEADLINE is 6.
pub record SchedAttr : Type 0 where
  pub size : ℕ
  pub sched_policy : ℕ
  pub sched_flags : ℕ
  pub sched_nice : ℕ
  pub sched_priority : ℕ
  pub sched_runtime : ℕ
  pub sched_deadline : ℕ
  pub sched_period : ℕ

abbrev pub sched_deadline_policy : ℕ
sched_deadline_policy = 6

-- For a period that is not negative, as `Runner` passes it.
unfoldable pub real_time_attr : ℕ → SchedAttr
real_time_attr period_ns = record {
  size = 48;
  sched_policy = sched_deadline_policy;
  sched_flags = 0;
  sched_nice = 0;
  sched_priority = 0;
  sched_runtime = period_ns / 1000 * 300;
  sched_deadline = period_ns / 1000 * 500;
  sched_period = period_ns;
}
