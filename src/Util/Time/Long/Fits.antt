-- ===== src/Util/Time/Long/Fits.antt =====
-- `incTime` and `getTimeDuration` stay within `long`.
use robo_band.Base.{
  ℕ, zero, suc, ◌+◌, ◌-◌, ◌*◌, ◌/◌, ◌<◌, ◌≤◌, ◌≡◌, refl, ap, ◌∙◌, inl, inr, Bool-cases, some, arith,
}
use robo_band.Base.Int.{ℤ, pos, negsuc, pos_part, neg_part, ◌+ℤ◌, ◌-ℤ◌, ◌*ℤ◌, ◌≤ℤ◌, leb_ℤ, +ℤ_parts}
use robo_band.Util.Time.{Timespec, ns, sec, carries, carry_loop, inc_time, get_time_duration}
use robo_band.Util.Time.Carry.{
  IsNormal, total, total-inc_time, inc_time-IsNormal, get_time_duration-inc_time,
}
use robo_band.Util.Time.Long.{
  long_max, checked, carry_loop_long, inc_time_long, get_time_duration_long,
}

-- The two parts of a sum and of a difference, one of which is 0.
+ℤ_exact :
    (a b : ℤ)
    → (pos_part (a +ℤ b) ≡ pos_part a + pos_part b - (neg_part a + neg_part b))
      × (neg_part (a +ℤ b) ≡ neg_part a + neg_part b - (pos_part a + pos_part b))
unfolding ◌+ℤ◌
+ℤ_exact a b = (ground arith, ground arith)

-ℤ_exact :
    (a b : ℤ)
    → (pos_part (a -ℤ b) ≡ pos_part a + neg_part b - (neg_part a + pos_part b))
      × (neg_part (a -ℤ b) ≡ neg_part a + pos_part b - (pos_part a + neg_part b))
unfolding ◌-ℤ◌
-ℤ_exact a b = (ground arith, ground arith)

scaled_exact :
    (a : ℤ)
    → (pos_part (a *ℤ sec ns) ≡ 1000000000 * pos_part a)
      × (neg_part (a *ℤ sec ns) ≡ 1000000000 * neg_part a)
unfolding ◌*ℤ◌
scaled_exact (pos n) = (ground arith, ground arith)
scaled_exact (negsuc n) = (ground arith, ground arith)

checked-fits : (z : ℤ) → pos_part z ≤ long_max → neg_part z ≤ suc long_max → checked z ≡ some z
unfolding checked
checked-fits z h k = ground arith

-- The rounds of the loop, if the seconds have room for the carries.
carry_loop_long-fits :
    (fuel : ℕ) (t : Timespec)
    → carries t.tv_nsec < fuel
    → pos_part t.tv_nsec ≤ long_max
    → neg_part t.tv_sec ≤ suc long_max
    → pos_part t.tv_sec + carries t.tv_nsec ≤ long_max
    → carry_loop_long fuel t ≡ some (carry_loop fuel t)
unfolding carry_loop_long carry_loop
carry_loop_long-fits zero t enough a b c = elim enough [ ]
carry_loop_long-fits (suc fuel) t enough a b c = elim (Bool-cases (leb_ℤ (sec ns) t.tv_nsec)) [
  | inr below ↦ rw below refl
  | inl over ↦
      let many : 1000000000 ≤ pos_part t.tv_nsec = ground arith in
      let exact : neg_part t.tv_nsec ≡ 0 = ground arith in
      let next : Timespec = record { tv_sec = t.tv_sec +ℤ pos 1; tv_nsec = t.tv_nsec -ℤ sec ns } in
      let secs : checked (t.tv_sec +ℤ pos 1) ≡ some (t.tv_sec +ℤ pos 1) =
        checked-fits _ (omega (arith, +ℤ_exact t.tv_sec (pos 1)))
          (omega (arith, +ℤ_exact t.tv_sec (pos 1))) in
      let nsecs : checked (t.tv_nsec -ℤ sec ns) ≡ some (t.tv_nsec -ℤ sec ns) =
        checked-fits _ (omega (arith, -ℤ_exact t.tv_nsec (sec ns)))
          (omega (arith, -ℤ_exact t.tv_nsec (sec ns))) in
      rw (over, secs, nsecs)
        (carry_loop_long-fits fuel next
          (omega (arith, +ℤ_exact t.tv_sec (pos 1), -ℤ_exact t.tv_nsec (sec ns)))
          (omega (arith, +ℤ_exact t.tv_sec (pos 1), -ℤ_exact t.tv_nsec (sec ns)))
          (omega (arith, +ℤ_exact t.tv_sec (pos 1), -ℤ_exact t.tv_nsec (sec ns)))
          (omega (arith, +ℤ_exact t.tv_sec (pos 1), -ℤ_exact t.tv_nsec (sec ns))))
]

-- The bounds that the operations of the two functions stay in.
pub record HasRoom (t : Timespec) (time_ns : ℤ) : Type 0 where
  pub not_negative : pos 0 ≤ℤ time_ns
  pub time_below : pos_part time_ns + 1000000000 ≤ long_max
  pub sec_above : neg_part t.tv_sec ≤ suc long_max
  pub sec_below : pos_part t.tv_sec + pos_part time_ns / 1000000000 < long_max

inc_time_long-fits :
    (t : Timespec) (time_ns : ℤ)
    → IsNormal t
    → HasRoom t time_ns
    → inc_time_long t time_ns ≡ some (inc_time t time_ns)
unfolding inc_time_long inc_time
inc_time_long-fits t time_ns n h =
    let nsecs : checked (t.tv_nsec +ℤ time_ns) ≡ some (t.tv_nsec +ℤ time_ns) =
      checked-fits _ (omega (arith, +ℤ_exact t.tv_nsec time_ns))
        (omega (arith, +ℤ_exact t.tv_nsec time_ns)) in
    rw nsecs (
      carry_loop_long-fits (suc (carries (t.tv_nsec +ℤ time_ns)))
        (record t { tv_nsec = t.tv_nsec +ℤ time_ns }) (omega arith)
        (omega (arith, +ℤ_exact t.tv_nsec time_ns)) h.sec_above
        (omega (arith, +ℤ_exact t.tv_nsec time_ns)))

-- From a normal time to a normal time that is not before it, the operations fit if the seconds do.
get_time_duration_long-fits :
    (a b : Timespec)
    → IsNormal a
    → IsNormal b
    → a.tv_sec ≤ℤ b.tv_sec
    → pos_part ((b.tv_sec -ℤ a.tv_sec) *ℤ sec ns) ≤ long_max
    → pos_part (get_time_duration a b) ≤ long_max
    → get_time_duration_long a b ≡ some (get_time_duration a b)
unfolding get_time_duration_long get_time_duration
get_time_duration_long-fits a b na nb h k l =
    let nsecs : checked (b.tv_nsec -ℤ a.tv_nsec) ≡ some (b.tv_nsec -ℤ a.tv_nsec) =
      checked-fits _ (omega (arith, -ℤ_exact b.tv_nsec a.tv_nsec))
        (omega (arith, -ℤ_exact b.tv_nsec a.tv_nsec)) in
    let secs : checked (b.tv_sec -ℤ a.tv_sec) ≡ some (b.tv_sec -ℤ a.tv_sec) =
      checked-fits _
        (omega (arith, -ℤ_exact b.tv_sec a.tv_sec, scaled_exact (b.tv_sec -ℤ a.tv_sec)))
        (omega (arith, -ℤ_exact b.tv_sec a.tv_sec, scaled_exact (b.tv_sec -ℤ a.tv_sec))) in
    let scaled : checked ((b.tv_sec -ℤ a.tv_sec) *ℤ sec ns)
        ≡ some ((b.tv_sec -ℤ a.tv_sec) *ℤ sec ns) =
      checked-fits _ k
        (omega (arith, -ℤ_exact b.tv_sec a.tv_sec, scaled_exact (b.tv_sec -ℤ a.tv_sec))) in
    rw (nsecs, secs, scaled)
      (checked-fits _ l (
        omega (
          arith,
          -ℤ_exact b.tv_sec a.tv_sec,
          scaled_exact (b.tv_sec -ℤ a.tv_sec),
          -ℤ_exact b.tv_nsec a.tv_nsec,
          +ℤ_exact (b.tv_nsec -ℤ a.tv_nsec) ((b.tv_sec -ℤ a.tv_sec) *ℤ sec ns),
        )))

-- A normal time that lies n nanoseconds after another one has at most a second more in whole seconds.
seconds_after :
    (a b : Timespec) (n : ℤ)
    → IsNormal a
    → IsNormal b
    → pos 0 ≤ℤ n
    → total b ≡ total a +ℤ n
    → (a.tv_sec ≤ℤ b.tv_sec)
      × (pos_part ((b.tv_sec -ℤ a.tv_sec) *ℤ sec ns) ≤ pos_part n + 1000000000)
seconds_after a b n na nb h e = omega (
  arith,
  scaled_exact a.tv_sec,
  scaled_exact b.tv_sec,
  scaled_exact (b.tv_sec -ℤ a.tv_sec),
  -ℤ_exact b.tv_sec a.tv_sec,
  +ℤ_parts (a.tv_sec *ℤ sec ns) a.tv_nsec,
  +ℤ_parts (b.tv_sec *ℤ sec ns) b.tv_nsec,
  +ℤ_parts (total a) n,
  ap pos_part e,
  ap neg_part e,
)

-- For a normal time and a duration that is not negative and at least a second below the largest `long`,
-- where the seconds have room for those of the duration and one more: no operation of `incTime` and
-- `getTimeDuration` overflows, `incTime` makes a normal time that lies the duration after the first
-- one, and `getTimeDuration` between the two gives the duration back.
pub inc_time_long-duration :
    (t : Timespec) (time_ns : ℤ)
    → IsNormal t
    → HasRoom t time_ns
    → let t' = inc_time t time_ns in
      (inc_time_long t time_ns ≡ some t')
      × IsNormal t'
      × (total t' ≡ total t +ℤ time_ns)
      × (get_time_duration_long t t' ≡ some time_ns)
inc_time_long-duration t time_ns n h =
    let normal = inc_time-IsNormal t time_ns n h.not_negative in
    let sum = (total-inc_time t time_ns).0 in
    let later = seconds_after t (inc_time t time_ns) time_ns n normal h.not_negative sum in
    let back = get_time_duration-inc_time t time_ns in
    (
      inc_time_long-fits t time_ns n h,
      normal,
      sum,
      get_time_duration_long-fits t (inc_time t time_ns) n normal later.0
            (omega (arith, later.1, h.time_below)) (rw back (omega (arith, h.time_below)))
          ∙ ap some back,
    )
