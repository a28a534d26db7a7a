-- ===== src/Io/Lifecycle/Life/Safe.antt =====
-- When the owner stops a running IO before it destroys it.
use robo_band.Base.{
  ℕ, zero, suc, ◌<◌, ◌≡◌, ◌≢◌, refl, ap, sym, Bool, true, false, Option, some, List, [], ◌∷◌, arith,
  ◌⊎◌, inl, inr, ◌||◌, not,
}
use mathlib.Core.Path.{subst}
use robo_band.Io.Lifecycle.{Io, Thread, null, joinable, joined, new_io, run}
use robo_band.Io.Lifecycle.Traces.{Call, runs, count_stops, stops_after_run}
use robo_band.Io.Lifecycle.Life.{
  Place, absent, testing, reading, serving, returned, Owner, calling, joining, dying, gone, threw,
  Life, born, Step, go_on, leave, fill, serve, start, repeat, stop_none, stop_some, stop_again,
  join, delete, join_last, Reach, here, later, after_delete,
}

-- Calls without a `run`, or with a `stop` after the first one.
abbrev pub Orderly : List Call → Type 0
Orderly calls = stops_after_run calls ≢ some 0

-- What the owner's calls still have to do about the thread.
abbrev pub Due : Thread → List Call → Type 0
Due null calls = Orderly calls
Due joinable calls = 0 < count_stops calls
Due joined calls = Unit

-- The reading thread is there just while it can be joined, and it has returned once it was joined.
abbrev pub Fits : Thread → Place → Type 0
Fits null worker = worker ≡ absent
Fits joinable worker = worker ≢ absent
Fits joined worker = worker ≡ returned

abbrev pub OwnerFits : Owner → Io → Bool → Place → Type 0
OwnerFits (calling calls) io live worker = (live ≡ true) × Due io.thread calls
OwnerFits (joining calls) io live worker =
    (live ≡ true) × (io.thread ≡ joinable) × (io.running ≡ false)
OwnerFits dying io live worker = ⊥
OwnerFits gone io live worker = (worker ≡ absent) ⊎ (worker ≡ returned)
OwnerFits threw io live worker = live ≡ true

pub record Inv (s : Life) : Type 0 where
  pub fits : Fits s.io.thread s.worker
  pub owned : OwnerFits s.owner s.io s.live s.worker
  pub clean : s.stray ≡ false

-- Between the start of the loop and its end.
abbrev pub busy : Place → Bool
busy absent = false
busy returned = false
busy _ = true

pub busy-there : (worker : Place) → busy worker ≡ true → worker ≢ absent
busy-there worker h = ground arith

not_some-some : (k : ℕ) → ◌≢◌ {A = Option ℕ} (some k) (some 0) → 0 < k
not_some-some zero h = absurd (h refl)
not_some-some (suc k) h = omega arith

Due-repeat :
    (thread : Thread) (calls : List Call)
    → thread ≢ null
    → Due thread (runs ∷ calls)
    → Due thread calls
Due-repeat null calls h due = absurd (h refl)
Due-repeat joinable calls h due = due
Due-repeat joined calls h due = tt

-- While the reading thread is in its loop, the buffer is there, and the owner does not look at it.
busy-live :
    (owner : Owner) (io : Io) (live : Bool) (worker : Place)
    → busy worker ≡ true
    → OwnerFits owner io live worker
    → live ≡ true
busy-live (calling calls) io live worker h owned = owned.0
busy-live (joining calls) io live worker h owned = owned.0
busy-live dying io live worker h owned = absurd owned
busy-live gone io live worker h (inl e) = absurd (ground arith)
busy-live gone io live worker h (inr e) = absurd (ground arith)
busy-live threw io live worker h owned = owned

busy-owned :
    (owner : Owner) (io : Io) (live : Bool) (worker w : Place)
    → busy worker ≡ true
    → OwnerFits owner io live worker
    → OwnerFits owner io live w
busy-owned (calling calls) io live worker w h owned = owned
busy-owned (joining calls) io live worker w h owned = owned
busy-owned dying io live worker w h owned = absurd owned
busy-owned gone io live worker w h (inl e) = absurd (ground arith)
busy-owned gone io live worker w h (inr e) = absurd (ground arith)
busy-owned threw io live worker w h owned = owned

busy-Fits :
    (thread : Thread) (worker w : Place)
    → busy worker ≡ true
    → w ≢ absent
    → Fits thread worker
    → Fits thread w
busy-Fits null worker w h there fits = absurd (ground arith)
busy-Fits joinable worker w h there fits = there
busy-Fits joined worker w h there fits = absurd (ground arith)

-- A step of the reading thread.
worker-Inv :
    (s : Life) (w : Place) (stray : Bool)
    → Inv s
    → busy s.worker ≡ true
    → w ≢ absent
    → (s.live ≡ true → stray ≡ false)
    → Inv (record s { worker = w; stray = stray })
worker-Inv s w stray inv h there clean = record {
  fits = busy-Fits s.io.thread s.worker w h there inv.fits;
  owned = busy-owned s.owner s.io s.live s.worker w h inv.owned;
  clean = clean (busy-live s.owner s.io s.live s.worker h inv.owned);
}

clean-live : (stray live : Bool) → stray ≡ false → live ≡ true → (stray || not live) ≡ false
clean-live stray live h on = ground arith

joined-idle :
    (thread : Thread) (worker : Place)
    → thread ≢ joinable
    → Fits thread worker
    → (worker ≡ absent) ⊎ (worker ≡ returned)
joined-idle null worker h fits = inl fits
joined-idle joinable worker h fits = absurd (h refl)
joined-idle joined worker h fits = inr fits

pub OwnerFits-at :
    {s : Life} {owner : Owner} → s.owner ≡ owner → Inv s → OwnerFits owner s.io s.live s.worker
OwnerFits-at {s} at inv = subst (λ o. OwnerFits o s.io s.live s.worker) at inv.owned

pub Fits-at : {s : Life} {thread : Thread} → s.io.thread ≡ thread → Inv s → Fits thread s.worker
Fits-at {s} at inv = subst (λ th. Fits th s.worker) at inv.fits

Due-at :
    {s : Life} {thread : Thread} {calls : List Call}
    → s.owner ≡ calling calls
    → s.io.thread ≡ thread
    → Inv s
    → Due thread calls
Due-at {calls} at is inv = subst (λ th. Due th calls) is (OwnerFits-at at inv).1

pub run-null :
    (io : Io) → io.thread ≡ null → (run io).0 ≡ record io { running = true; thread = joinable }
unfolding run
run-null io free = rw (free, run) refl

pub run-there : (io : Io) → io.thread ≢ null → (run io).0 ≡ io
unfolding run
run-there io there = ground arith

delete-owned :
    (thread : Thread) (io : Io) (worker : Place)
    → Due thread []
    → Fits thread worker
    → OwnerFits (after_delete thread) io false worker
delete-owned null io worker due fits = inl fits
delete-owned joinable io worker due fits = absurd (omega arith)
delete-owned joined io worker due fits = inr fits

pub Step-Inv : {s t : Life} → Step s t → Inv s → Inv t
Step-Inv {s} (go_on at on) inv =
    worker-Inv s reading s.stray inv (ap busy at) (ground arith) (λ _. inv.clean)
Step-Inv {s} (leave at off) inv =
    worker-Inv s returned s.stray inv (ap busy at) (ground arith) (λ _. inv.clean)
Step-Inv {s} (fill at) inv =
    worker-Inv s serving _ inv (ap busy at) (ground arith) (clean-live s.stray s.live inv.clean)
Step-Inv {s} (serve at) inv =
    worker-Inv s testing _ inv (ap busy at) (ground arith) (clean-live s.stray s.live inv.clean)
Step-Inv {s} (start calls at free) inv =
    subst (λ io. Inv (record s { io = io; worker = testing; owner = calling calls }))
      (sym (run-null s.io free))
      (record {
        fits = ground arith;
        owned = ((OwnerFits-at at inv).0, not_some-some (count_stops calls) (Due-at at free inv));
        clean = inv.clean;
      })
Step-Inv {s} (repeat calls at there) inv =
    let (live, due) = OwnerFits-at at inv in
    subst (λ io. Inv (record s { io = io; owner = calling calls })) (sym (run-there s.io there))
      (record {
        fits = inv.fits;
        owned = (live, Due-repeat s.io.thread calls there due);
        clean = inv.clean;
      })
Step-Inv {s} (stop_none calls at free) inv = record {
  fits = inv.fits;
  owned = ((OwnerFits-at at inv).0, subst (λ th. Due th calls) (sym free) (Due-at at free inv));
  clean = inv.clean;
}
Step-Inv (stop_some calls at there) inv = record {
  fits = inv.fits;
  owned = ((OwnerFits-at at inv).0, there, refl);
  clean = inv.clean;
}
Step-Inv (stop_again calls at done) inv = record {
  fits = inv.fits;
  owned = (OwnerFits-at at inv).0;
  clean = inv.clean;
}
Step-Inv (join calls at done) inv = record {
  fits = done;
  owned = ((OwnerFits-at at inv).0, tt);
  clean = inv.clean;
}
Step-Inv {s} (delete at) inv = record {
  fits = inv.fits;
  owned = delete-owned s.io.thread s.io s.worker (OwnerFits-at at inv).1 inv.fits;
  clean = inv.clean;
}
Step-Inv (join_last at done) inv = absurd (OwnerFits-at at inv)

pub Reach-Inv : {s t : Life} → Reach s t → Inv s → Inv t
Reach-Inv here inv = inv
Reach-Inv (later before step) inv = Step-Inv step (Reach-Inv before inv)

pub born-Inv : (n : ℕ) (calls : List Call) → Orderly calls → Inv (born n calls)
unfolding born new_io
born-Inv n calls h = record { fits = refl; owned = (refl, h); clean = refl }

-- If the calls have no `run`, or a `stop` after the first one: in every interleaving the buffer is used
-- only while it is there, and when the destructor has returned, no thread is left that could use it.
pub Orderly-safe :
    (n : ℕ) (calls : List Call) {s : Life}
    → Orderly calls
    → Reach (born n calls) s
    → (s.stray ≡ false) × (s.owner ≡ gone → (s.worker ≡ absent) ⊎ (s.worker ≡ returned))
Orderly-safe n calls h reach =
    let inv = Reach-Inv reach (born-Inv n calls h) in (inv.clean, λ at. OwnerFits-at at inv)
