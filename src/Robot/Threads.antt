-- ===== src/Robot/Threads.antt =====
-- What a robot relies on of the objects that it starts and stops, and that IOs and runners meet it.
use robo_band.Base.{◌≡◌, refl, List, [], ◌∷◌, Option, none, some, arith, false}
use robo_band.Io.Lifecycle.{Io, Thread, null, joinable, joined, Effect, start_thread, join_thread}
use robo_band.Io.Lifecycle
use robo_band.Ctrl.Runner.{Runner}
use robo_band.Ctrl.Runner

pub record Threaded {ℓ} (T : Type ℓ) : Type ℓ where
  pub run : T → T × List Effect
  pub stop : T → Option (T × List Effect)
  pub thread_of : T → Thread
  -- A thread is started by the first `run` and by no other.
  pub run-null :
      (t : T)
      → thread_of t ≡ null
      → ((run t).1 ≡ start_thread ∷ []) × (thread_of (run t).0 ≡ joinable)
  pub run-joined : (t : T) → thread_of t ≡ joined → run t ≡ (t, [])
  -- It is joined by the first `stop`, and a second one throws.
  pub stop-joinable :
      (t : T)
      → thread_of t ≡ joinable
      → (t' : T) × (stop t ≡ some (t', join_thread ∷ [])) × (thread_of t' ≡ joined)
  pub stop-joined : (t : T) → thread_of t ≡ joined → stop t ≡ none

pub io_run-null :
    (io : Io)
    → io.thread ≡ null
    → ((Lifecycle.run io).1 ≡ start_thread ∷ []) × ((Lifecycle.run io).0.thread ≡ joinable)
unfolding Lifecycle.run
io_run-null io h = rw (h, Lifecycle.run) (refl, refl)

pub io_run-joined : (io : Io) → io.thread ≡ joined → Lifecycle.run io ≡ (io, [])
unfolding Lifecycle.run
io_run-joined io h = ground arith

pub io_stop-joinable :
    (io : Io)
    → io.thread ≡ joinable
    → (io' : Io) × (Lifecycle.stop io ≡ some (io', join_thread ∷ [])) × (io'.thread ≡ joined)
unfolding Lifecycle.stop
io_stop-joinable io h =
    (record io { running = false; thread = joined }, rw (h, Lifecycle.stop), refl)

pub io_stop-joined : (io : Io) → io.thread ≡ joined → Lifecycle.stop io ≡ none
unfolding Lifecycle.stop
io_stop-joined io h = rw (h, Lifecycle.stop)

instance abbrev pub io_threaded : Threaded Io
io_threaded = record {
  run = Lifecycle.run;
  stop = Lifecycle.stop;
  thread_of = λ io. io.thread;
  run-null = io_run-null;
  run-joined = io_run-joined;
  stop-joinable = io_stop-joinable;
  stop-joined = io_stop-joined;
}

pub runner_run-null {ℓ} :
    {F : Type ℓ}
    → (runner : Runner F) → runner.thread ≡ null
    → ((Runner.run runner).1 ≡ start_thread ∷ []) × ((Runner.run runner).0.thread ≡ joinable)
unfolding Runner.run
runner_run-null runner h = rw (h, Runner.run) (refl, refl)

pub runner_run-joined {ℓ} :
    {F : Type ℓ} → (runner : Runner F) → runner.thread ≡ joined → Runner.run runner ≡ (runner, [])
unfolding Runner.run
runner_run-joined runner h = ground arith

pub runner_stop-joinable {ℓ} :
    {F : Type ℓ}
    → (runner : Runner F) → runner.thread ≡ joinable
    → (runner' : Runner F) × (Runner.stop runner ≡ some (runner', join_thread ∷ []))
      × (runner'.thread ≡ joined)
unfolding Runner.stop
runner_stop-joinable runner h =
    (record runner { running = false; thread = joined }, rw (h, Runner.stop), refl)

pub runner_stop-joined {ℓ} :
    {F : Type ℓ} → (runner : Runner F) → runner.thread ≡ joined → Runner.stop runner ≡ none
unfolding Runner.stop
runner_stop-joined runner h = rw (h, Runner.stop)

instance abbrev pub runner_threaded {ℓ} : {F : Type ℓ} → Threaded (Runner F)
runner_threaded = record {
  run = Runner.run;
  stop = Runner.stop;
  thread_of = λ runner. runner.thread;
  run-null = runner_run-null;
  run-joined = runner_run-joined;
  stop-joinable = runner_stop-joinable;
  stop-joined = runner_stop-joined;
}
