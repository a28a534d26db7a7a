-- ===== src/Ctrl/Runner/Deadlines.antt =====
-- The deadlines of a runner: a period after the last one, or, after an overrun, a period from now.
use std.Path.{subst}
use robo_band.Base.{
  ℕ, suc, ◌≡◌, refl, ap, sym, ◌∙◌, true, false, List, [], ◌∷◌, map, Bool-cases, inl, inr,
  if◌then◌else◌, arith,
}
use robo_band.Base.Int.{
  ℤ, pos, negsuc, pos_part, neg_part, ◌+ℤ◌, ◌-ℤ◌, ◌*ℤ◌, ◌≤ℤ◌, ◌<ℤ◌, leb_ℤ, ltb_ℤ, +ℤ_parts,
  -ℤ_parts, eq_of_parts,
}
use robo_band.Base.Float.{Float}
use robo_band.Util.Time.{Timespec, inc_time}
use robo_band.Util.Time.Carry.{
  total, IsNormal, total-inc_time, inc_time-inc_time, inc_time_zero, get_time_duration-total,
}
use robo_band.Ctrl.Runner.{Clocks, cycle_ns, total_of, remain, round, thread_func}

-- The schedule in whole nanoseconds, for a period c: the next deadline is a period after the last one
-- if that is still to come, and otherwise a period after the task's end.
abbrev pub next_deadline : ℤ → ℤ → ℤ → ℤ
next_deadline c d now = if ltb_ℤ now (d +ℤ c) then d +ℤ c else now +ℤ c

abbrev pub deadlines : ℤ → ℤ → List Clocks → List ℤ
deadlines c d [] = []
deadlines c d (clocks ∷ rest) =
    let next = next_deadline c d (total clocks.t_now) in next ∷ deadlines c next rest

next_deadline_late :
    (c d now r : ℤ)
    → r ≡ d +ℤ c -ℤ now
    → leb_ℤ r (pos 0) ≡ true
    → (d +ℤ c) +ℤ (c -ℤ r) ≡ next_deadline c d now
next_deadline_late c d now r e h =
    let sub = -ℤ_parts (d +ℤ c) now in
    let rest = -ℤ_parts c r in
    let sum = +ℤ_parts (d +ℤ c) (c -ℤ r) in
    let other = +ℤ_parts now c in
    let p = ap pos_part e in
    let n = ap neg_part e in ground (arith, eq_of_parts ((d +ℤ c) +ℤ (c -ℤ r)) (now +ℤ c))

next_deadline_on_time :
    (c d now r : ℤ) → r ≡ d +ℤ c -ℤ now → leb_ℤ r (pos 0) ≡ false → d +ℤ c ≡ next_deadline c d now
next_deadline_on_time c d now r e h =
    let sub = -ℤ_parts (d +ℤ c) now in
    let p = ap pos_part e in let n = ap neg_part e in ground arith

next_deadline-later :
    (c d now : ℤ) → pos 0 <ℤ c → (now <ℤ next_deadline c d now) × (d +ℤ c ≤ℤ next_deadline c d now)
next_deadline-later c d now h =
    let sum = +ℤ_parts d c in let sum' = +ℤ_parts now c in (ground arith, ground arith)

next_multiple : (k : ℕ) (c : ℤ) → pos 0 ≤ℤ c → pos k *ℤ c +ℤ c ≡ pos (suc k) *ℤ c
unfolding ◌*ℤ◌ ◌+ℤ◌
next_multiple k (pos m) h = ground arith
next_multiple k (negsuc m) h = ground arith

zero_multiple : (c : ℤ) → pos 0 *ℤ c ≡ pos 0
unfolding ◌*ℤ◌
zero_multiple c = ground arith

multiple_not_negative : (k : ℕ) (c : ℤ) → pos 0 ≤ℤ c → pos 0 ≤ℤ pos k *ℤ c
unfolding ◌*ℤ◌
multiple_not_negative k (pos m) h = ground arith
multiple_not_negative k (negsuc m) h = ground arith

module _ {ℓ} {F : Type ℓ} ⦃f : Float F⦄ (cycle_ms : F) where
  -- That `t_total` is computed without a rounding error.
  abbrev pub IsExact : ℤ → Type 0
  IsExact t_remain = total_of cycle_ms t_remain ≡ cycle_ns cycle_ms -ℤ t_remain

  abbrev pub AllExact : Timespec → List Clocks → Type 0
  AllExact t_set [] = Unit
  AllExact t_set (c ∷ cs) =
      IsExact (remain cycle_ms t_set c) × AllExact (round cycle_ms t_set c).0 cs

  remain-total :
      (t_set : Timespec) (c : Clocks)
      → remain cycle_ms t_set c ≡ total t_set +ℤ cycle_ns cycle_ms -ℤ total c.t_now
  remain-total t_set c =
      get_time_duration-total c.t_now (inc_time t_set (cycle_ns cycle_ms))
      ∙ ap (λ (d : ℤ). d -ℤ total c.t_now) (total-inc_time t_set (cycle_ns cycle_ms)).0

  -- One round sleeps until the next deadline of the schedule.
  total-round :
      (t_set : Timespec) (c : Clocks)
      → IsExact (remain cycle_ms t_set c)
      → total (round cycle_ms t_set c).0
        ≡ next_deadline (cycle_ns cycle_ms) (total t_set) (total c.t_now)
  unfolding round
  total-round t_set c exact =
      let period = cycle_ns cycle_ms in
      let next = inc_time t_set period in
      let left = remain cycle_ms t_set c in
      let known = remain-total t_set c in
      let next_total = (total-inc_time t_set period).0 in
      elim (Bool-cases (leb_ℤ left (pos 0))) [
        | inl late ↦
            rw (late, round)
              ((total-inc_time next (total_of cycle_ms left)).0
                ∙ (ap (λ (d : ℤ). d +ℤ total_of cycle_ms left) next_total
                    ∙ (ap (λ (e : ℤ). (total t_set +ℤ period) +ℤ e) exact
                        ∙ next_deadline_late period (total t_set) (total c.t_now) left known late)))
        | inr on_time ↦
            rw (on_time, round)
              (next_total
                ∙ next_deadline_on_time period (total t_set) (total c.t_now) left known on_time)
      ]

  -- If no `t_total` is rounded, the loop sleeps until the deadlines of the schedule: each is a
  -- period after the last one, if the task ended before that, and otherwise a period after the end
  -- of the task.
  pub thread_func-deadlines :
      (t_set : Timespec) (cs : List Clocks)
      → AllExact t_set cs
      → map total (thread_func cycle_ms t_set cs) ≡ deadlines (cycle_ns cycle_ms) (total t_set) cs
  unfolding thread_func
  thread_func-deadlines t_set [] e = refl
  thread_func-deadlines t_set (c ∷ cs) (e, es) =
      let here = total-round t_set c e in
      let next = next_deadline (cycle_ns cycle_ms) (total t_set) (total c.t_now) in
      ap (λ (d : ℤ). d ∷ map total (thread_func cycle_ms (round cycle_ms t_set c).0 cs)) here
      ∙ ap (λ (ds : List ℤ). next ∷ ds)
          (thread_func-deadlines (round cycle_ms t_set c).0 cs es
            ∙ ap (λ (d : ℤ). deadlines (cycle_ns cycle_ms) d cs) here)

  -- With a period that is positive, and unless `t_total` is rounded, a round sleeps until a time that
  -- is later than the end of its task, and at least a period later than the last one.
  pub round-later :
      (t_set : Timespec) (c : Clocks)
      → pos 0 <ℤ cycle_ns cycle_ms
      → IsExact (remain cycle_ms t_set c)
      → (total c.t_now <ℤ total (round cycle_ms t_set c).0)
        × (total t_set +ℤ cycle_ns cycle_ms ≤ℤ total (round cycle_ms t_set c).0)
  round-later t_set c h exact =
      let same = total-round t_set c exact in
      let later = next_deadline-later (cycle_ns cycle_ms) (total t_set) (total c.t_now) h in
      let p = ap pos_part same in
      let n = ap neg_part same in (omega (arith, later.0), omega (arith, later.1))

  -- Every task ends before the next deadline.
  abbrev pub AllOnTime : Timespec → List Clocks → Type 0
  AllOnTime t_set [] = Unit
  AllOnTime t_set (c ∷ cs) =
      let next = inc_time t_set (cycle_ns cycle_ms) in
      (total c.t_now <ℤ total next) × AllOnTime next cs

  -- The times k + 1, k + 2, … periods after a start.
  abbrev pub periods : Timespec → ℕ → List Clocks → List Timespec
  periods t k [] = []
  periods t k (c ∷ cs) = inc_time t (pos (suc k) *ℤ cycle_ns cycle_ms) ∷ periods t (suc k) cs

  round-on_time :
      (t_set : Timespec) (c : Clocks)
      → total c.t_now <ℤ total (inc_time t_set (cycle_ns cycle_ms))
      → (round cycle_ms t_set c).0 ≡ inc_time t_set (cycle_ns cycle_ms)
  unfolding round
  round-on_time t_set c h =
      let known = get_time_duration-total c.t_now (inc_time t_set (cycle_ns cycle_ms)) in
      let p = ap pos_part known in
      let n = ap neg_part known in
      let diff = -ℤ_parts (total (inc_time t_set (cycle_ns cycle_ms))) (total c.t_now) in
      ground arith

  thread_func-periods_from :
      (cs : List Clocks) (t : Timespec) (k : ℕ)
      → IsNormal t
      → pos 0 ≤ℤ cycle_ns cycle_ms
      → AllOnTime (inc_time t (pos k *ℤ cycle_ns cycle_ms)) cs
      → thread_func cycle_ms (inc_time t (pos k *ℤ cycle_ns cycle_ms)) cs ≡ periods t k cs
  unfolding thread_func
  thread_func-periods_from [] t k n h on_time = refl
  thread_func-periods_from (c ∷ cs) t k n h (on_time, rest) =
      let period = cycle_ns cycle_ms in
      let next : inc_time (inc_time t (pos k *ℤ period)) period
          ≡ inc_time t (pos (suc k) *ℤ period) =
        inc_time-inc_time t (pos k *ℤ period) period n (multiple_not_negative k period h) h
        ∙ ap (inc_time t) (next_multiple k period h) in
      let here = round-on_time (inc_time t (pos k *ℤ period)) c on_time ∙ next in
      ap (λ (s : Timespec). s ∷ thread_func cycle_ms s cs) here
      ∙ ap (λ (ss : List Timespec). inc_time t (pos (suc k) *ℤ period) ∷ ss)
          (thread_func-periods_from cs t (suc k) n h
            (subst (λ (s : Timespec). AllOnTime s cs) next rest))

  -- If every task ends before the next deadline, the loop sleeps until exactly one, two, three, …
  -- periods after the time that it read at its start: it does not drift, whatever the tasks take.
  pub thread_func-periods :
      (t : Timespec) (cs : List Clocks)
      → IsNormal t
      → pos 0 ≤ℤ cycle_ns cycle_ms
      → AllOnTime t cs
      → thread_func cycle_ms t cs ≡ periods t 0 cs
  thread_func-periods t cs n h on_time =
      let period = cycle_ns cycle_ms in
      let start : inc_time t (pos 0 *ℤ period) ≡ t =
        ap (inc_time t) (zero_multiple period) ∙ inc_time_zero t n in
      ap (λ (s : Timespec). thread_func cycle_ms s cs) (sym start)
      ∙ thread_func-periods_from cs t 0 n h
          (subst (λ (s : Timespec). AllOnTime s cs) (sym start) on_time)
