-- ===== src/Robot/Running/Phases.antt =====
-- How far each thread is, by where the main thread is.
use mathlib.Core.Path.{subst}
use robo_band.Base.{
  ℕ, suc, ◌<◌, ◌≡◌, ◌≢◌, refl, sym, Bool, true, false, if◌then◌else◌, ltb, ◌==◌, ==_iff, arith, inl,
  inr, Bool-cases,
}
use robo_band.Robot.Slots.{set_at, set_at-all, set_at-becomes}
use robo_band.Robot.Running.{
  Place, absent, testing, working, blocked, returned, Worker, MainPlace, starting_io, initialising,
  starting_ctrl, looping, stopping_ctrl, joining_ctrl, stopping_io, joining_io, finished, Team,
  started, told, bound, Move, go_on, leave, worked, blocks, Step, io_moves, ctrl_moves, start_io,
  ios_started, initialised, start_ctrl, ctrls_started, sleep, quit, stop_ctrl, join_ctrl,
  ctrls_stopped, stop_io, join_io, finish, Reach, here, later,
}

-- Not started; in its loop; told to stop; joined.
pub data Phase : Type 0 where
  unborn alive leaving over : Phase

abbrev before : ℕ → ℕ → Phase → Phase → Phase
before j i then_phase other = if ltb j i then then_phase else other

-- The j-th IO.
abbrev pub io_phase : MainPlace → ℕ → Phase
io_phase (starting_io i) j = before j i alive unborn
io_phase (stopping_io i) j = before j i over alive
io_phase (joining_io i) j = before j i over (if j == i then leaving else alive)
io_phase finished j = over
io_phase _ j = alive

-- The j-th runner.
abbrev pub ctrl_phase : MainPlace → ℕ → Phase
ctrl_phase (starting_io i) j = unborn
ctrl_phase initialising j = unborn
ctrl_phase (starting_ctrl i) j = before j i alive unborn
ctrl_phase looping j = alive
ctrl_phase (stopping_ctrl i) j = before j i over alive
ctrl_phase (joining_ctrl i) j = before j i over (if j == i then leaving else alive)
ctrl_phase _ j = over

-- In its loop.
abbrev pub busy : Place → Bool
busy testing = true
busy working = true
busy blocked = true
busy _ = false

abbrev pub Fits : Phase → Worker → Type 0
Fits unborn w = w.place ≡ absent
Fits alive w = (w.running ≡ true) × (busy w.place ≡ true)
Fits leaving w = (w.running ≡ false) × (w.place ≢ absent)
Fits over w = w.place ≡ returned

pub record Inv (m n : ℕ) (s : Team) : Type 0 where
  pub ios : (j : ℕ) → j < m → Fits (io_phase s.main j) (s.ios j)
  pub ctrls : (j : ℕ) → j < n → Fits (ctrl_phase s.main j) (s.ctrls j)

-- A thread does not leave its phase by itself.
Move-Fits : (phase : Phase) {w w' : Worker} → Move w w' → Fits phase w → Fits phase w'
Move-Fits unborn (go_on at on) fits = absurd (ground arith)
Move-Fits unborn (leave at off) fits = absurd (ground arith)
Move-Fits unborn (worked at) fits = absurd (ground arith)
Move-Fits unborn (blocks at) fits = absurd (ground arith)
Move-Fits alive (go_on at on) fits = (fits.0, refl)
Move-Fits alive (leave at off) fits = absurd (let on = fits.0 in ground arith)
Move-Fits alive (worked at) fits = (fits.0, refl)
Move-Fits alive (blocks at) fits = (fits.0, refl)
Move-Fits leaving (go_on at on) fits = absurd (let off = fits.0 in ground arith)
Move-Fits leaving (leave at off) fits = (off, λ e. ground arith)
Move-Fits leaving (worked at) fits = (fits.0, λ e. ground arith)
Move-Fits leaving (blocks at) fits = (fits.0, λ e. ground arith)
Move-Fits over (go_on at on) fits = absurd (ground arith)
Move-Fits over (leave at off) fits = absurd (ground arith)
Move-Fits over (worked at) fits = absurd (ground arith)
Move-Fits over (blocks at) fits = absurd (ground arith)

-- The phases of threads that a step of the main thread leaves alone.
Fits-same :
    (p q : ℕ → Phase) (g : ℕ → Worker) (n : ℕ)
    → ((j : ℕ) → j < n → p j ≡ q j)
    → ((j : ℕ) → j < n → Fits (p j) (g j))
    → (j : ℕ) → j < n
    → Fits (q j) (g j)
Fits-same p q g n same fits j lt = subst (λ phase. Fits phase (g j)) (same j lt) (fits j lt)

-- One thread comes to another phase.
Fits-set_at :
    (p q : ℕ → Phase) (g : ℕ → Worker) (i n : ℕ) (w : Worker) (phase : Phase)
    → q i ≡ phase
    → Fits phase w
    → ((j : ℕ) → j ≢ i → p j ≡ q j)
    → ((j : ℕ) → j < n → Fits (p j) (g j))
    → (j : ℕ) → j < n
    → Fits (q j) (set_at g i w j)
Fits-set_at p q g i n w phase at fits others =
    set_at-becomes (λ j. Fits (p j)) (λ j. Fits (q j)) g i w n (subst (λ k. Fits k w) (sym at) fits)
      (λ j apart. subst (λ k. Fits k (g j)) (others j apart))

-- A thread that has returned is joined.
Fits-join :
    (p q : ℕ → Phase) (g : ℕ → Worker) (i n : ℕ)
    → q i ≡ over
    → (g i).place ≡ returned
    → ((j : ℕ) → j ≢ i → p j ≡ q j)
    → ((j : ℕ) → j < n → Fits (p j) (g j))
    → (j : ℕ) → j < n
    → Fits (q j) (g j)
Fits-join p q g i n at done others fits j lt = elim (Bool-cases (j == i)) [
  | inl same ↦
      let e : j ≡ i = (==_iff j i).0 same in
      subst (λ k. Fits (q k) (g k)) (sym e) (subst (λ k. Fits k (g i)) (sym at) done)
  | inr other ↦
      subst (λ k. Fits k (g j)) (others j (λ e. ground (arith, (==_iff j i).1 e))) (fits j lt)
]

alive-told : (w : Worker) → Fits alive w → Fits leaving (told w)
alive-told w fits = (refl, λ e. let on = fits.1 in ground arith)

pub bound-Inv : (m n : ℕ) → Inv m n bound
unfolding bound
bound-Inv m n = record {
  ios = λ j lt. let none : ltb j 0 ≡ false = ground arith in rw none refl;
  ctrls = λ j lt. refl;
}

-- At the main thread's place.
pub ios-at :
    {m n : ℕ} {s : Team} {main : MainPlace}
    → s.main ≡ main
    → Inv m n s
    → (j : ℕ) → j < m
    → Fits (io_phase main j) (s.ios j)
ios-at {s = s} at inv j lt = subst (λ p. Fits (io_phase p j) (s.ios j)) at (inv.ios j lt)

pub ctrls-at :
    {m n : ℕ} {s : Team} {main : MainPlace}
    → s.main ≡ main
    → Inv m n s
    → (j : ℕ) → j < n
    → Fits (ctrl_phase main j) (s.ctrls j)
ctrls-at {s = s} at inv j lt = subst (λ p. Fits (ctrl_phase p j) (s.ctrls j)) at (inv.ctrls j lt)

module _ {m n : ℕ} where
  pub Step-Inv : {s t : Team} → Step m n s t → Inv m n s → Inv m n t
  Step-Inv {s} (io_moves i {w} lt move) inv = record {
    ios =
        set_at-all (λ j. Fits (io_phase s.main j)) s.ios i w m
          (Move-Fits (io_phase s.main i) move (inv.ios i lt)) inv.ios;
    ctrls = inv.ctrls;
  }
  Step-Inv {s} (ctrl_moves i {w} lt move) inv = record {
    ios = inv.ios;
    ctrls =
        set_at-all (λ j. Fits (ctrl_phase s.main j)) s.ctrls i w n
          (Move-Fits (ctrl_phase s.main i) move (inv.ctrls i lt)) inv.ctrls;
  }
  Step-Inv {s} (start_io i at lt) inv = record {
    ios =
        Fits-set_at (io_phase (starting_io i)) (io_phase (starting_io (suc i))) s.ios i m started
          alive (ground arith) (refl, refl) (λ j apart. ground arith) (ios-at at inv);
    ctrls = ctrls-at at inv;
  }
  Step-Inv {s} (ios_started at) inv = record {
    ios =
        Fits-same (io_phase (starting_io m)) (io_phase initialising) s.ios m (λ j lt. ground arith)
          (ios-at at inv);
    ctrls = ctrls-at at inv;
  }
  Step-Inv {s} (initialised at) inv = record {
    ios = ios-at at inv;
    ctrls =
        Fits-same (ctrl_phase initialising) (ctrl_phase (starting_ctrl 0)) s.ctrls n
          (λ j lt. ground arith) (ctrls-at at inv);
  }
  Step-Inv {s} (start_ctrl i at lt) inv = record {
    ios = ios-at at inv;
    ctrls =
        Fits-set_at (ctrl_phase (starting_ctrl i)) (ctrl_phase (starting_ctrl (suc i))) s.ctrls i n
          started alive (ground arith) (refl, refl) (λ j apart. ground arith) (ctrls-at at inv);
  }
  Step-Inv {s} (ctrls_started at) inv = record {
    ios = ios-at at inv;
    ctrls =
        Fits-same (ctrl_phase (starting_ctrl n)) (ctrl_phase looping) s.ctrls n
          (λ j lt. ground arith) (ctrls-at at inv);
  }
  Step-Inv (sleep at) inv = inv
  Step-Inv {s} (quit at) inv = record {
    ios = ios-at at inv;
    ctrls =
        Fits-same (ctrl_phase looping) (ctrl_phase (stopping_ctrl 0)) s.ctrls n
          (λ j lt. ground arith) (ctrls-at at inv);
  }
  Step-Inv {s} (stop_ctrl i at lt) inv = record {
    ios = ios-at at inv;
    ctrls =
        let was : ctrl_phase (stopping_ctrl i) i ≡ alive = ground arith in
        Fits-set_at (ctrl_phase (stopping_ctrl i)) (ctrl_phase (joining_ctrl i)) s.ctrls i n
          (told (s.ctrls i)) leaving (ground arith)
          (alive-told (s.ctrls i) (subst (λ k. Fits k (s.ctrls i)) was (ctrls-at at inv i lt)))
          (λ j apart. ground arith) (ctrls-at at inv);
  }
  Step-Inv {s} (join_ctrl i at done) inv = record {
    ios = ios-at at inv;
    ctrls =
        Fits-join (ctrl_phase (joining_ctrl i)) (ctrl_phase (stopping_ctrl (suc i))) s.ctrls i n
          (ground arith) done (λ j apart. ground arith) (ctrls-at at inv);
  }
  Step-Inv {s} (ctrls_stopped at) inv = record {
    ios =
        Fits-same (io_phase (stopping_ctrl n)) (io_phase (stopping_io 0)) s.ios m
          (λ j lt. ground arith) (ios-at at inv);
    ctrls =
        Fits-same (ctrl_phase (stopping_ctrl n)) (ctrl_phase (stopping_io 0)) s.ctrls n
          (λ j lt. ground arith) (ctrls-at at inv);
  }
  Step-Inv {s} (stop_io i at lt) inv = record {
    ios =
        let was : io_phase (stopping_io i) i ≡ alive = ground arith in
        Fits-set_at (io_phase (stopping_io i)) (io_phase (joining_io i)) s.ios i m (told (s.ios i))
          leaving (ground arith)
          (alive-told (s.ios i) (subst (λ k. Fits k (s.ios i)) was (ios-at at inv i lt)))
          (λ j apart. ground arith) (ios-at at inv);
    ctrls = ctrls-at at inv;
  }
  Step-Inv {s} (join_io i at done) inv = record {
    ios =
        Fits-join (io_phase (joining_io i)) (io_phase (stopping_io (suc i))) s.ios i m
          (ground arith) done (λ j apart. ground arith) (ios-at at inv);
    ctrls = ctrls-at at inv;
  }
  Step-Inv {s} (finish at) inv = record {
    ios =
        Fits-same (io_phase (stopping_io m)) (io_phase finished) s.ios m (λ j lt. ground arith)
          (ios-at at inv);
    ctrls = ctrls-at at inv;
  }

  pub Reach-Inv : {s t : Team} → Reach m n s t → Inv m n s → Inv m n t
  Reach-Inv here inv = inv
  Reach-Inv (later run step) inv = Step-Inv step (Reach-Inv run inv)
