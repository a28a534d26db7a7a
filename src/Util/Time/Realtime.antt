-- ===== src/Util/Time/Realtime.antt =====
-- The attributes that `setThisThreadRealTime` asks the kernel for.
use robo_band.Base.{ℕ, ◌≤◌, ◌*◌, arith}
use robo_band.Util.Time.{real_time_attr}

-- For every period, the runtime is at most the deadline and the deadline at most the period, as
-- SCHED_DEADLINE wants; and at most 30% of
-- the period is claimed.
pub real_time_attr_bounds :
    (period_ns : ℕ)
    → let attr = real_time_attr period_ns in
      (attr.sched_runtime ≤ attr.sched_deadline)
      × (attr.sched_deadline ≤ attr.sched_period)
      × (10 * attr.sched_runtime ≤ 3 * attr.sched_period)
unfolding real_time_attr
real_time_attr_bounds period_ns = omega arith
