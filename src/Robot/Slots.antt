-- ===== src/Robot/Slots.antt =====
-- Functions from places that are changed at one place: the vectors of a robot.
use robo_band.Base.{ℕ, ◌<◌, ◌≢◌, if◌then◌else◌, ◌==◌, ==_iff, Bool-cases, inl, inr, arith}

-- Another value at one place.
abbrev pub set_at : {A : Type 0} → (ℕ → A) → ℕ → A → ℕ → A
set_at g i a j = if j == i then a else g j

-- From a property of every place to another one, after a change of one place.
pub set_at-becomes :
    {A : Type 0} (P Q : ℕ → A → Type 0) (g : ℕ → A) (i : ℕ) (a : A) (n : ℕ)
    → Q i a
    → ((j : ℕ) → j ≢ i → P j (g j) → Q j (g j))
    → ((j : ℕ) → j < n → P j (g j))
    → (j : ℕ) → j < n
    → Q j (set_at g i a j)
set_at-becomes P Q g i a n here others before j lt = elim (Bool-cases (j == i)) [
  | inl same ↦ rw (same, (==_iff j i).0 same) here
  | inr other ↦ rw other (others j (λ e. ground (arith, (==_iff j i).1 e)) (before j lt))
]

-- A property of every place, after a change of one place.
pub set_at-all :
    {A : Type 0} (P : ℕ → A → Type 0) (g : ℕ → A) (i : ℕ) (a : A) (n : ℕ)
    → P i a
    → ((j : ℕ) → j < n → P j (g j))
    → (j : ℕ) → j < n
    → P j (set_at g i a j)
set_at-all P g i a n here = set_at-becomes P P g i a n here (λ j _ h. h)
