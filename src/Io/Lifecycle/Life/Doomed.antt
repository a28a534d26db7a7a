-- ===== src/Io/Lifecycle/Life/Doomed.antt =====
-- An interleaving in which the destructor of a running IO deletes the buffer, and the thread goes on.
use robo_band.Base.{ℕ, ◌≡◌, refl, ap, ◌∙◌, true, false, some, List, [], ◌∷◌, arith, ◌||◌, not}
use robo_band.Io.Lifecycle.{null, joinable, run}
use robo_band.Io.Lifecycle.Traces.{Call, runs, stops, count_stops, stops_after_run}
use robo_band.Io.Lifecycle.Life.{
  testing, serving, calling, dying, Life, go_on, fill, start, repeat, stop_none, delete, Reach,
  later, after_delete,
}
use robo_band.Io.Lifecycle.Life.Safe.{run-null, run-there}

pub some-injective : {m n : ℕ} → some m ≡ some n → m ≡ n
some-injective e = ground arith

-- A state in which the destructor waits for a thread that goes on.
pub record Doomed (s : Life) : Type 0 where
  last : Life
  reach : Reach s last
  dies : last.owner ≡ dying
  deleted : last.live ≡ false
  tests : last.worker ≡ testing
  runs_on : last.io.running ≡ true

-- The owner makes its calls after the start, while the thread has not gone on.
doom-started :
    (calls : List Call) {b s : Life}
    → Reach b s
    → s.owner ≡ calling calls
    → s.io.thread ≡ joinable
    → s.io.running ≡ true
    → s.worker ≡ testing
    → count_stops calls ≡ 0
    → Doomed b
unfolding run
doom-started [] {s = s} reach at there on tests none_left = record {
  last = record s { live = false; owner = after_delete s.io.thread };
  reach = later reach (delete at);
  dies = ap after_delete there;
  deleted = refl;
  tests = tests;
  runs_on = on;
}
doom-started (runs ∷ calls) {s = s} reach at there on tests none_left =
    let same = run-there s.io (λ e. ground arith) in
    doom-started calls (later reach (repeat calls at (λ e. ground arith))) refl
      (ap (λ io. io.thread) same ∙ there) (ap (λ io. io.running) same ∙ on) tests none_left
doom-started (stops ∷ calls) reach at there on tests none_left = absurd (omega arith)

pub doom-new :
    (calls : List Call) {b s : Life}
    → Reach b s
    → s.owner ≡ calling calls
    → s.io.thread ≡ null
    → stops_after_run calls ≡ some 0
    → Doomed b
doom-new [] reach at free left = absurd (ground arith)
doom-new (runs ∷ calls) {s = s} reach at free left =
    let now = run-null s.io free in
    doom-started calls (later reach (start calls at free)) refl (ap (λ io. io.thread) now)
      (ap (λ io. io.running) now) refl (some-injective left)
doom-new (stops ∷ calls) reach at free left =
    doom-new calls (later reach (stop_none calls at free)) refl free left

-- The thread goes on with `read`, which writes to the buffer.
pub strays : {b : Life} → Doomed b → (s : Life) × Reach b s × (s.stray ≡ true)
strays d =
    let reading_on = later d.reach (go_on d.tests d.runs_on) in
    (
      record d.last { worker = serving; stray = d.last.stray || not d.last.live },
      later reading_on (fill refl),
      (let gone_buffer = d.deleted in ground arith),
    )
