-- ===== src/Ctrl/Runner/Webots/Rounds.antt =====
-- In which steps of the simulator a controller runs.
use robo_band.Base.{
  ℕ, zero, suc, ◌*◌, ◌≡◌, refl, ap, ◌∙◌, List, [], ◌∷◌, replicate, arith, leb, leb→le, le→leb,
  lt→leb_false, leb_false→lt, Bool-cases, inl, inr,
}
use native.Mathlib.Nat.{mul-le-mul_left, mul-lt-mul_of_pos_left}
use robo_band.Base.Int.{ℤ, pos, ◌+ℤ◌, +ℤ_parts, eq_of_parts, leb_ℤ}
use robo_band.Base.Float.{Float}
use robo_band.Ctrl.Runner.Webots.{add_cycle, thread_func}

-- The times of n steps of the simulator after the k-th one since a start.
abbrev pub step_times : ℤ → ℕ → ℕ → ℕ → List ℤ
step_times start step k zero = []
step_times start step k (suc n) = (start +ℤ pos (suc k * step)) ∷ step_times start step (suc k) n

-- No sum of a `time_set` and the cycle is rounded.
abbrev pub IsExact : {F : Type 0} ⦃f : Float F⦄ → F → ℤ → ℕ → Type 0
IsExact cycle_ms start cycle =
    (k : ℕ) → add_cycle cycle_ms (start +ℤ pos (k * cycle)) ≡ start +ℤ pos (suc k * cycle)

leb-shift : (s : ℤ) (a b : ℕ) → leb_ℤ (s +ℤ pos a) (s +ℤ pos b) ≡ leb a b
leb-shift s a b = ground (arith, +ℤ_parts s (pos a), +ℤ_parts s (pos b))

leb-scaled : (k a b : ℕ) → leb (suc k * a) (suc k * b) ≡ leb a b
leb-scaled k a b = elim (Bool-cases (leb a b)) [
  | inl le ↦
      let scaled = mul-le-mul_left (suc k) (leb→le a b le) in
      rw le (le→leb (suc k * a) (suc k * b) scaled)
  | inr gt ↦
      let scaled = mul-lt-mul_of_pos_left {k = suc k} (leb_false→lt a b gt) (omega arith) in
      rw gt (lt→leb_false (suc k * a) (suc k * b) scaled)
]

module _ {F : Type 0} ⦃f : Float F⦄ (cycle_ms : F) (start : ℤ) (cycle step : ℕ) where
  rounds-from :
      (n k : ℕ)
      → IsExact cycle_ms start cycle
      → thread_func cycle_ms (step_times start step k n) (start +ℤ pos (k * cycle))
        ≡ replicate n (leb step cycle)
  unfolding thread_func
  rounds-from zero k exact = refl
  rounds-from (suc n) k exact =
      let first = leb-shift start (suc k * step) (suc k * cycle) ∙ leb-scaled k step cycle in
      rw (exact k, first, rounds-from n (suc k) exact)

  -- If no `time_set` is rounded: a runner whose thread read the time of the start, and that passes
  -- the barrier in every step of the simulator from then on, runs its task in every step if a step
  -- is at most a cycle long, and in no step at all if it is longer.
  pub thread_func-rounds :
      (n : ℕ)
      → IsExact cycle_ms start cycle
      → thread_func cycle_ms (step_times start step 0 n) start ≡ replicate n (leb step cycle)
  thread_func-rounds n exact =
      let origin : start ≡ start +ℤ pos (0 * cycle) =
        omega (arith, +ℤ_parts start (pos (0 * cycle)), eq_of_parts) in
      ap (thread_func cycle_ms (step_times start step 0 n)) origin ∙ rounds-from n 0 exact
