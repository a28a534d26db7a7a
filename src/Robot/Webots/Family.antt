-- ===== src/Robot/Webots/Family.antt =====
-- Sums over the runners, such as how many of them wait at the barrier.
use robo_band.Base.{
  ℕ, zero, suc, ◌+◌, ◌*◌, ◌<◌, ◌≤◌, ◌≡◌, ◌≢◌, refl, ◌==◌, arith, ◌⊎◌, inl, inr, Bool-cases, ==_iff,
  ap, sym, ◌∙◌,
}
use native.Mathlib.Nat.{mul-suc}
use robo_band.Robot.Slots.{set_at}
use robo_band.Robot.Webots.System.{Place, waiting, Looper, released}

abbrev pub weight : Place → ℕ
weight waiting = 1
weight _ = 0

abbrev pub wait : Looper → ℕ
wait r = weight r.place

-- The sum over the first n.
abbrev pub total : (Looper → ℕ) → ℕ → (ℕ → Looper) → ℕ
total w zero g = 0
total w (suc n) g = total w n g + w (g n)

abbrev pub waiting_of : ℕ → (ℕ → Looper) → ℕ
waiting_of = total wait

pub wait-cases : (r : Looper) → (wait r ≡ 0) ⊎ (wait r ≡ 1)
wait-cases r = ground arith

pub wait-released : (r : Looper) → wait (released r) ≡ 0
wait-released r = ground arith

pub lt-cases : (i n : ℕ) → i < suc n → (i < n) ⊎ (n ≡ i)
lt-cases i n h = elim (Bool-cases (n == i)) [
  | inl same ↦ inr ((==_iff n i).0 same)
  | inr other ↦ inl (ground arith)
]

pub set_at_here : (g : ℕ → Looper) (i : ℕ) (r : Looper) → set_at g i r i ≡ r
set_at_here g i r = ground arith

pub set_at_other : (g : ℕ → Looper) (i j : ℕ) (r : Looper) → j ≢ i → set_at g i r j ≡ g j
set_at_other g i j r apart = ground arith

total-after :
    (w : Looper → ℕ) (n i : ℕ) (g : ℕ → Looper) (r : Looper)
    → n ≤ i
    → total w n (set_at g i r) ≡ total w n g
total-after w zero i g r h = refl
total-after w (suc n) i g r h =
    rw (total-after w n i g r (omega arith), set_at_other g i n r (omega arith))

-- A change of one runner.
pub total-set_at :
    (w : Looper → ℕ) (n i : ℕ) (g : ℕ → Looper) (r : Looper)
    → i < n
    → total w n (set_at g i r) + w (g i) ≡ total w n g + w r
total-set_at w zero i g r h = absurd (omega arith)
total-set_at w (suc n) i g r h = elim (lt-cases i n h) [
  | inl lt ↦
      omega (arith, total-set_at w n i g r lt, ap w (set_at_other g i n r (omega (arith, lt))))
  | inr same ↦ omega (
    arith,
    total-after w n i g r (omega (arith, same)),
    ap w (set_at_here g i r),
    ap (λ j. w (g j)) same,
    ap (λ j. w (set_at g i r j)) same,
  )
]

pub total-le :
    (w : Looper → ℕ) (c n : ℕ) (g : ℕ → Looper) → ((r : Looper) → w r ≤ c) → total w n g ≤ c * n
total-le w c zero g h = omega arith
total-le w c (suc n) g h =
    let bound = total-le w c n g h in let here = h (g n) in omega (arith, mul-suc c n)

-- When a phase is complete nobody waits.
pub waiting_of-released : (n : ℕ) (g : ℕ → Looper) → waiting_of n (λ i. released (g i)) ≡ 0
waiting_of-released zero g = refl
waiting_of-released (suc n) g = omega (arith, waiting_of-released n g, wait-released (g n))

pub waiting_of-le : (n : ℕ) (g : ℕ → Looper) → waiting_of n g ≤ n
waiting_of-le zero g = omega arith
waiting_of-le (suc n) g = elim (wait-cases (g n)) [
  | inl idle ↦ omega (arith, idle, waiting_of-le n g)
  | inr waits ↦ omega (arith, waits, waiting_of-le n g)
]

pub waiting_of-start : (n : ℕ) (r : Looper) → wait r ≡ 0 → waiting_of n (λ i. r) ≡ 0
waiting_of-start zero r h = refl
waiting_of-start (suc n) r h = omega (arith, waiting_of-start n r h)

-- Either all of them wait, or there is one that does not.
pub all-wait :
    (n : ℕ) (g : ℕ → Looper) → (waiting_of n g ≡ n) ⊎ ((i : ℕ) × (i < n) × (wait (g i) ≡ 0))
all-wait zero g = inl refl
all-wait (suc n) g = elim (wait-cases (g n)) [
  | inl idle ↦ inr (n, omega arith, idle)
  | inr waits ↦ elim (all-wait n g) [
    | inl all ↦ inl (omega (arith, all, waits))
    | inr (i, lt, idle) ↦ inr (i, omega (arith, lt), idle)
  ]
]

-- If all of them wait, each one does.
pub waiting_of-full :
    (n : ℕ) (g : ℕ → Looper) → waiting_of n g ≡ n → (i : ℕ) → i < n → wait (g i) ≡ 1
waiting_of-full zero g h i lt = absurd (omega arith)
waiting_of-full (suc n) g h i lt =
    let le = waiting_of-le n g in
    elim (wait-cases (g n)) [
      | inl idle ↦ absurd (omega (arith, idle))
      | inr waits ↦ elim (lt-cases i n lt) [
        | inl before ↦ waiting_of-full n g (omega (arith, waits)) i before
        | inr same ↦ ap (λ j. wait (g j)) (sym same) ∙ waits
      ]
    ]
