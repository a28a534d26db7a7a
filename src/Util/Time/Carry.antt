-- ===== src/Util/Time/Carry.antt =====
-- `incTime` keeps the time that a timespec stands for, and leaves the nanoseconds below a second.
use robo_band.Base.{ℕ, zero, suc, ◌+◌, ◌*◌, ◌<◌, ◌≡◌, refl, sym, ap, ◌∙◌, arith}
use robo_band.Base.Int.{
  ℤ, pos, pos_part, neg_part, ◌+ℤ◌, ◌-ℤ◌, ◌*ℤ◌, ◌≤ℤ◌, ◌<ℤ◌, int_laws, +ℤ_parts, -ℤ_parts, +ℤ_assoc,
  +ℤ_zero, *ℤ_parts, eq_of_parts,
}
use robo_band.Util.Time.{Timespec, ns, sec, carry_loop, carries, inc_time, get_time_duration}

-- The nanoseconds that a timespec stands for.
abbrev pub total : Timespec → ℤ
total t = t.tv_sec *ℤ sec ns +ℤ t.tv_nsec

-- A timespec that the kernel accepts.
pub record IsNormal (t : Timespec) : Type 0 where
  pub not_negative : pos 0 ≤ℤ t.tv_nsec
  pub below_second : t.tv_nsec <ℤ sec ns

abbrev SecondsScale : (a : ℤ) → Type 0
SecondsScale a =
    pos_part (a *ℤ sec ns) + 1000000000 * neg_part a
    ≡ neg_part (a *ℤ sec ns) + 1000000000 * pos_part a

seconds_lem : (a : ℤ) → SecondsScale a
seconds_lem a = omega (arith, *ℤ_parts a (sec ns))

abbrev carry : Timespec → Timespec
carry t = record { tv_sec = t.tv_sec +ℤ pos 1; tv_nsec = t.tv_nsec -ℤ sec ns }

-- One round of the loop keeps the total.
total-carry : (t : Timespec) → total (carry t) ≡ total t
total-carry t = omega (
  arith,
  seconds_lem t.tv_sec,
  seconds_lem (t.tv_sec +ℤ pos 1),
  +ℤ_parts t.tv_sec (pos 1),
  -ℤ_parts t.tv_nsec (sec ns),
  +ℤ_parts (t.tv_sec *ℤ sec ns) t.tv_nsec,
  +ℤ_parts ((t.tv_sec +ℤ pos 1) *ℤ sec ns) (t.tv_nsec -ℤ sec ns),
  eq_of_parts,
)

total-carry_loop : (fuel : ℕ) (t : Timespec) → total (carry_loop fuel t) ≡ total t
unfolding carry_loop
total-carry_loop zero t = refl
total-carry_loop (suc fuel) t = ground (arith, total-carry t, total-carry_loop fuel (carry t))

-- With as many rounds as there are whole seconds, and one more, the loop ends by its test.
carry_loop_below :
    (fuel : ℕ) (t : Timespec) → carries t.tv_nsec < fuel → (carry_loop fuel t).tv_nsec <ℤ sec ns
unfolding carry_loop
carry_loop_below zero t h = elim h [ ]
carry_loop_below (suc fuel) t h =
    ground (arith, -ℤ_parts t.tv_nsec (sec ns), carry_loop_below fuel (carry t))

carry_loop_not_negative :
    (fuel : ℕ) (t : Timespec) → pos 0 ≤ℤ t.tv_nsec → pos 0 ≤ℤ (carry_loop fuel t).tv_nsec
unfolding carry_loop
carry_loop_not_negative zero t h = h
carry_loop_not_negative (suc fuel) t h =
    ground (arith, -ℤ_parts t.tv_nsec (sec ns), carry_loop_not_negative fuel (carry t))

-- Whatever the operands, `incTime` adds the given nanoseconds to the time, and ends with fewer
-- nanoseconds than a second.
pub total-inc_time :
    (t : Timespec) (time_ns : ℤ)
    → (total (inc_time t time_ns) ≡ total t +ℤ time_ns) × ((inc_time t time_ns).tv_nsec <ℤ sec ns)
unfolding inc_time
total-inc_time t time_ns =
    let start = record t { tv_nsec = t.tv_nsec +ℤ time_ns } in
    let fuel = suc (carries start.tv_nsec) in
    (
      total-carry_loop fuel start ∙ +ℤ_assoc (t.tv_sec *ℤ sec ns) t.tv_nsec time_ns,
      carry_loop_below fuel start (omega arith),
    )

-- A step that is not negative keeps a timespec normal.
pub inc_time-IsNormal :
    (t : Timespec) (time_ns : ℤ) → IsNormal t → pos 0 ≤ℤ time_ns → IsNormal (inc_time t time_ns)
unfolding inc_time
inc_time-IsNormal t time_ns n h =
    let start = record t { tv_nsec = t.tv_nsec +ℤ time_ns } in
    let fuel = suc (carries start.tv_nsec) in
    record {
      not_negative = carry_loop_not_negative fuel start (omega (arith, +ℤ_parts t.tv_nsec time_ns));
      below_second = carry_loop_below fuel start (omega arith);
    }

-- `getTimeDuration` is the difference of the two times.
pub get_time_duration-total : (a b : Timespec) → get_time_duration a b ≡ total b -ℤ total a
unfolding get_time_duration
get_time_duration-total a b = omega (
  arith,
  seconds_lem a.tv_sec,
  seconds_lem b.tv_sec,
  seconds_lem (b.tv_sec -ℤ a.tv_sec),
  int_laws,
)

-- The duration from a time to that time moved on by some nanoseconds is those nanoseconds.
pub get_time_duration-inc_time :
    (t : Timespec) (time_ns : ℤ) → get_time_duration t (inc_time t time_ns) ≡ time_ns
get_time_duration-inc_time t time_ns =
    rw (get_time_duration-total t (inc_time t time_ns), (total-inc_time t time_ns).0)
      (omega
        (arith, +ℤ_parts (total t) time_ns, -ℤ_parts (total t +ℤ time_ns) (total t), eq_of_parts))

same_seconds : (a b : Timespec) → IsNormal a → IsNormal b → total a ≡ total b → a.tv_sec ≡ b.tv_sec
same_seconds a b na nb e = omega (
  arith,
  seconds_lem a.tv_sec,
  seconds_lem b.tv_sec,
  +ℤ_parts (a.tv_sec *ℤ sec ns) a.tv_nsec,
  +ℤ_parts (b.tv_sec *ℤ sec ns) b.tv_nsec,
  ap pos_part e,
  ap neg_part e,
  eq_of_parts,
)

-- A normal timespec is determined by the time that it stands for.
normal_unique : (a b : Timespec) → IsNormal a → IsNormal b → total a ≡ total b → a ≡ b
normal_unique a b na nb e =
    let secs : a.tv_sec ≡ b.tv_sec = same_seconds a b na nb e in
    let nsecs : a.tv_nsec ≡ b.tv_nsec = omega (
      arith,
      ap (λ (s : ℤ). pos_part (s *ℤ sec ns)) secs,
      ap (λ (s : ℤ). neg_part (s *ℤ sec ns)) secs,
      +ℤ_parts (a.tv_sec *ℤ sec ns) a.tv_nsec,
      +ℤ_parts (b.tv_sec *ℤ sec ns) b.tv_nsec,
      ap pos_part e,
      ap neg_part e,
      eq_of_parts,
    ) in
    ground arith

-- Two steps that are not negative make the same timespec as one step of their sum: a deadline that
-- is moved on period by period does not drift.
pub inc_time-inc_time :
    (t : Timespec) (a b : ℤ)
    → IsNormal t
    → pos 0 ≤ℤ a
    → pos 0 ≤ℤ b
    → inc_time (inc_time t a) b ≡ inc_time t (a +ℤ b)
inc_time-inc_time t a b n ha hb =
    let first = inc_time-IsNormal t a n ha in
    normal_unique _ _ (inc_time-IsNormal _ b first hb)
      (inc_time-IsNormal t (a +ℤ b) n (omega (arith, +ℤ_parts a b)))
      (rw
        ((total-inc_time (inc_time t a) b).0, (total-inc_time t a).0, (total-inc_time t (a +ℤ b)).0)
        (sym (+ℤ_assoc (total t) a b)))

pub inc_time_zero : (t : Timespec) → IsNormal t → inc_time t (pos 0) ≡ t
inc_time_zero t n =
    normal_unique _ _ (inc_time-IsNormal t (pos 0) n (omega arith)) n
      ((total-inc_time t (pos 0)).0 ∙ +ℤ_zero (total t))
