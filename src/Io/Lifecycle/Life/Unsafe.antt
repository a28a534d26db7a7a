-- ===== src/Io/Lifecycle/Life/Unsafe.antt =====
-- When the owner destroys a running IO: a `run`, and no `stop` after the first one.
use mathlib.Core.Path.{subst}
use robo_band.Base.{
  ℕ, zero, suc, ◌≡◌, ◌≢◌, refl, ap, sym, Bool, true, false, Option, none, some, List, [], ◌∷◌,
  arith, ◌⊎◌, inl, inr, ◌↔◌,
}
use robo_band.Io.Lifecycle.{Thread, null, joinable, joined, new_io}
use robo_band.Io.Lifecycle.Traces.{Call, runs, stops, count_stops, stops_after_run}
use robo_band.Io.Lifecycle.Life.{
  Place, absent, testing, reading, serving, returned, Owner, calling, joining, dying, gone, threw,
  Life, born, Step, go_on, leave, fill, serve, start, repeat, stop_none, stop_some, stop_again,
  join, delete, join_last, Reach, here, later, after_delete,
}
use robo_band.Io.Lifecycle.Life.Safe.{busy, Orderly, Orderly-safe, run-null, run-there}
use robo_band.Io.Lifecycle.Life.Doomed.{some-injective, doom-new, strays}

-- What is left of the calls, while the thread was not started and after that.
abbrev Left : Thread → Bool → List Call → Type 0
Left null running calls = stops_after_run calls ≡ some 0
Left joinable running calls = (running ≡ true) × (count_stops calls ≡ 0)
Left joined running calls = ⊥

abbrev Runs : Owner → Thread → Bool → Type 0
Runs (calling calls) thread running = Left thread running calls
Runs dying thread running = (thread ≡ joinable) × (running ≡ true)
Runs _ thread running = ⊥

abbrev Works : Thread → Place → Type 0
Works null worker = worker ≡ absent
Works joinable worker = busy worker ≡ true
Works joined worker = ⊥

record Inv (s : Life) : Type 0 where
  runs_on : Runs s.owner s.io.thread s.io.running
  works : Works s.io.thread s.worker

born-Inv : (n : ℕ) (calls : List Call) → stops_after_run calls ≡ some 0 → Inv (born n calls)
unfolding born new_io
born-Inv n calls h = record { runs_on = h; works = refl }

worker-Works :
    (thread : Thread) (worker w : Place)
    → busy worker ≡ true
    → busy w ≡ true
    → Works thread worker
    → Works thread w
worker-Works null worker w h h' works = absurd (ground arith)
worker-Works joinable worker w h h' works = h'
worker-Works joined worker w h h' works = works

Left-running :
    (thread : Thread) (running : Bool) (calls : List Call) (worker : Place)
    → busy worker ≡ true
    → Left thread running calls
    → Works thread worker
    → running ≡ true
Left-running null running calls worker h left works = absurd (ground arith)
Left-running joinable running calls worker h left works = left.0
Left-running joined running calls worker h left works = absurd left

-- While the reading thread is in its loop, `running` is true.
busy-running :
    (owner : Owner) (thread : Thread) (running : Bool) (worker : Place)
    → busy worker ≡ true
    → Runs owner thread running
    → Works thread worker
    → running ≡ true
busy-running (calling calls) thread running worker h left works =
    Left-running thread running calls worker h left works
busy-running (joining calls) thread running worker h left works = absurd left
busy-running dying thread running worker h left works = left.1
busy-running gone thread running worker h left works = absurd left
busy-running threw thread running worker h left works = absurd left

Left-repeat :
    (thread : Thread) (running : Bool) (calls : List Call)
    → thread ≢ null
    → Left thread running (runs ∷ calls)
    → Left thread running calls
Left-repeat null running calls h left = absurd (h refl)
Left-repeat joinable running calls h left = left
Left-repeat joined running calls h left = left

-- No `stop` is left that would join the thread.
no_stop :
    (thread : Thread) (running : Bool) (calls : List Call)
    → thread ≢ null
    → Left thread running (stops ∷ calls)
    → ⊥
no_stop null running calls h left = h refl
no_stop joinable running calls h left = omega (arith, left.1)
no_stop joined running calls h left = left

Runs-delete :
    (thread : Thread) (running : Bool)
    → Left thread running []
    → Runs (after_delete thread) thread running
Runs-delete null running left = absurd (ground arith)
Runs-delete joinable running left = (refl, left.0)
Runs-delete joined running left = left

not_returned : (thread : Thread) {worker : Place} → worker ≡ returned → Works thread worker → ⊥
not_returned null at works = absurd (ground arith)
not_returned joinable at works = absurd (ground arith)
not_returned joined at works = works

module _ {s : Life} (inv : Inv s) where
  Runs-at : {owner : Owner} → s.owner ≡ owner → Runs owner s.io.thread s.io.running
  Runs-at at = subst (λ o. Runs o s.io.thread s.io.running) at inv.runs_on

  -- A step of the reading thread.
  worker-Inv :
      (w : Place) (stray : Bool)
      → busy s.worker ≡ true
      → busy w ≡ true
      → Inv (record s { worker = w; stray = stray })
  worker-Inv w stray h h' = record {
    runs_on = inv.runs_on;
    works = worker-Works s.io.thread s.worker w h h' inv.works;
  }

Step-Inv : {s t : Life} → Step s t → Inv s → Inv t
Step-Inv {s} (go_on at on) inv = worker-Inv inv reading s.stray (ap busy at) refl
Step-Inv {s} (leave at off) inv =
    let on =
      busy-running s.owner s.io.thread s.io.running s.worker (ap busy at) inv.runs_on inv.works in
    absurd (ground arith)
Step-Inv {s} (fill at) inv = worker-Inv inv serving _ (ap busy at) refl
Step-Inv {s} (serve at) inv = worker-Inv inv testing _ (ap busy at) refl
Step-Inv {s} (start calls at free) inv =
    let left = subst (λ th. Left th s.io.running (runs ∷ calls)) free (Runs-at inv at) in
    subst (λ io. Inv (record s { io = io; worker = testing; owner = calling calls }))
      (sym (run-null s.io free)) (record { runs_on = (refl, some-injective left); works = refl })
Step-Inv {s} (repeat calls at there) inv =
    subst (λ io. Inv (record s { io = io; owner = calling calls })) (sym (run-there s.io there))
      (record {
        runs_on = Left-repeat s.io.thread s.io.running calls there (Runs-at inv at);
        works = inv.works;
      })
Step-Inv {s} (stop_none calls at free) inv = record {
  runs_on =
      subst (λ th. Left th false calls) (sym free)
        (subst (λ th. Left th s.io.running (stops ∷ calls)) free (Runs-at inv at));
  works = inv.works;
}
Step-Inv {s} (stop_some calls at there) inv =
    absurd (no_stop s.io.thread s.io.running calls (λ e. ground arith) (Runs-at inv at))
Step-Inv {s} (stop_again calls at done) inv =
    absurd (no_stop s.io.thread s.io.running calls (λ e. ground arith) (Runs-at inv at))
Step-Inv {s} (join calls at done) inv = absurd (Runs-at inv at)
Step-Inv {s} (delete at) inv = record {
  runs_on = Runs-delete s.io.thread s.io.running (Runs-at inv at);
  works = inv.works;
}
Step-Inv {s} (join_last at done) inv = absurd (not_returned s.io.thread done inv.works)

Reach-Inv : {s t : Life} → Reach s t → Inv s → Inv t
Reach-Inv here inv = inv
Reach-Inv (later before step) inv = Step-Inv step (Reach-Inv before inv)

-- If there is a `run`, and no `stop` after the first one: in no state of any interleaving has the
-- destructor returned, and in some interleaving the thread reads into the deleted buffer.
pub disorderly-unsafe :
    (n : ℕ) (calls : List Call)
    → stops_after_run calls ≡ some 0
    → ((s : Life) → Reach (born n calls) s → s.owner ≢ gone)
      × ((s : Life) × Reach (born n calls) s × (s.stray ≡ true))
unfolding born new_io
disorderly-unsafe n calls h = (
  λ s reach e. Runs-at (Reach-Inv reach (born-Inv n calls h)) e,
  strays (doom-new calls here refl refl h),
)

-- Either there is a `run` and no `stop` after the first one, or not.
orderly-cases : (stops : Option ℕ) → (stops ≡ some 0) ⊎ (stops ≢ some 0)
orderly-cases none = inr (λ e. ground arith)
orderly-cases (some zero) = inl refl
orderly-cases (some (suc k)) = inr (λ e. ground arith)

-- The buffer is used only while it is there, in every interleaving of the owner's calls and the
-- destructor with the reading thread, exactly when the calls have no `run`, or a `stop` after the first
-- one.
pub safe_iff :
    (n : ℕ) (calls : List Call)
    → ((s : Life) → Reach (born n calls) s → s.stray ≡ false) ↔ Orderly calls
safe_iff n calls = (
  λ safe. elim (orderly-cases (stops_after_run calls)) [
    | inl bad ↦
        let (s, reach, used) = (disorderly-unsafe n calls bad).1 in
        absurd (ground (arith, safe s reach))
    | inr good ↦ good
  ],
  λ h s reach. (Orderly-safe n calls h reach).0,
)
