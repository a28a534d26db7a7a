-- ===== src/Robot/Running.antt =====
-- The main thread, the IOs' threads and the controllers' threads of a robot, as it is built without
-- USE_WEBOTS, interleaved in any order: `Robot::run` (src/robot/robot.cc), the loops of `IoKey` and
-- `IoNoKey` (src/io/io.hpp) and of `Runner` (src/ctrl/runner.cc). What a thread computes in a round of
-- its loop is not part of the state, but that the round may never end is.
pub mod Phases
pub mod Order
pub mod Progress
pub mod Joins
pub mod Examples
use robo_band.Base.{ℕ, suc, ◌<◌, ◌≡◌, Bool, true, false}
use robo_band.Robot.Slots.{set_at}

-- Where a thread is in its loop.
pub data Place : Type 0 where
  absent : Place  -- it was not started
  testing : Place  -- at the test of `running`
  working : Place  -- in the body: reading and unpacking, or the task and the sleep
  blocked : Place  -- in a call in the body that never returns
  returned : Place

-- An IO or a runner, with its thread.
pub record Worker : Type 0 where
  pub running : Bool
  pub place : Place

-- Where the main thread is in `Robot::run`.
pub data MainPlace : Type 0 where
  starting_io : ℕ → MainPlace  -- before `run` of an IO
  initialising : MainPlace  -- in `devInit`
  starting_ctrl : ℕ → MainPlace  -- before `run` of a runner
  looping : MainPlace
  stopping_ctrl : ℕ → MainPlace  -- before `stop` of a runner
  joining_ctrl : ℕ → MainPlace  -- in `join` of it
  stopping_io : ℕ → MainPlace
  joining_io : ℕ → MainPlace
  finished : MainPlace

pub record Team : Type 0 where
  pub main : MainPlace
  pub ios : ℕ → Worker
  pub ctrls : ℕ → Worker

-- `run` and `stop`, up to its `join`, of an object whose thread was not started, or runs.
abbrev pub started : Worker
started = record { running = true; place = testing }

abbrev pub told : Worker → Worker
told w = record w { running = false }

-- The virtual devices are bound, and no thread is started.
unfoldable pub bound : Team
bound = record {
  main = starting_io 0;
  ios = λ j. record { running = false; place = absent };
  ctrls = λ j. record { running = false; place = absent };
}

-- A step of an IO's or a runner's thread.
pub data Move (w : Worker) : Worker → Type 0 where
  go_on : w.place ≡ testing → w.running ≡ true → Move w (record w { place = working })
  leave : w.place ≡ testing → w.running ≡ false → Move w (record w { place = returned })
  worked : w.place ≡ working → Move w (record w { place = testing })
  -- `recvfrom` without a timeout, a read of a port that is never silent, or a task that does not end.
  blocks : w.place ≡ working → Move w (record w { place = blocked })

-- A step of a robot with m IOs and n controllers.
pub data Step (m n : ℕ) (s : Team) : Team → Type 0 where
  io_moves :
      (i : ℕ) {w : Worker}
      → i < m
      → Move (s.ios i) w
      → Step m n s (record s { ios = set_at s.ios i w })
  ctrl_moves :
      (i : ℕ) {w : Worker}
      → i < n
      → Move (s.ctrls i) w
      → Step m n s (record s { ctrls = set_at s.ctrls i w })
  start_io :
      (i : ℕ)
      → s.main ≡ starting_io i
      → i < m
      → Step m n s (record s { main = starting_io (suc i); ios = set_at s.ios i started })
  ios_started : s.main ≡ starting_io m → Step m n s (record s { main = initialising })
  initialised : s.main ≡ initialising → Step m n s (record s { main = starting_ctrl 0 })
  start_ctrl :
      (i : ℕ)
      → s.main ≡ starting_ctrl i
      → i < n
      → Step m n s (record s { main = starting_ctrl (suc i); ctrls = set_at s.ctrls i started })
  ctrls_started : s.main ≡ starting_ctrl n → Step m n s (record s { main = looping })
  -- `running` is true, and the main thread sleeps, or it is false.
  sleep : s.main ≡ looping → Step m n s s
  quit : s.main ≡ looping → Step m n s (record s { main = stopping_ctrl 0 })
  stop_ctrl :
      (i : ℕ)
      → s.main ≡ stopping_ctrl i
      → i < n
      → Step m n s (record s { main = joining_ctrl i; ctrls = set_at s.ctrls i (told (s.ctrls i)) })
  join_ctrl :
      (i : ℕ)
      → s.main ≡ joining_ctrl i
      → (s.ctrls i).place ≡ returned
      → Step m n s (record s { main = stopping_ctrl (suc i) })
  ctrls_stopped : s.main ≡ stopping_ctrl n → Step m n s (record s { main = stopping_io 0 })
  stop_io :
      (i : ℕ)
      → s.main ≡ stopping_io i
      → i < m
      → Step m n s (record s { main = joining_io i; ios = set_at s.ios i (told (s.ios i)) })
  join_io :
      (i : ℕ)
      → s.main ≡ joining_io i
      → (s.ios i).place ≡ returned
      → Step m n s (record s { main = stopping_io (suc i) })
  finish : s.main ≡ stopping_io m → Step m n s (record s { main = finished })

pub data Reach (m n : ℕ) (s : Team) : Team → Type 0 where
  here : Reach m n s s
  later : {t u : Team} → Reach m n s t → Step m n t u → Reach m n s u
