-- ===== src/Io/Lifecycle/Life/Joins.antt =====
-- The `join` of a `stop` does not wait for ever.
use robo_band.Base.{ℕ, suc, ◌+◌, ◌<◌, ◌≤◌, ◌≡◌, refl, ap, false, List, arith, ◌⊎◌, inl, inr}
use robo_band.Io.Lifecycle.{joinable}
use robo_band.Io.Lifecycle.Traces.{Call}
use robo_band.Io.Lifecycle.Life.{
  Place, absent, testing, reading, serving, returned, calling, joining, Life, born, Step, go_on,
  leave, fill, serve, start, repeat, stop_none, stop_some, stop_again, join, delete, join_last,
  Reach,
}
use robo_band.Io.Lifecycle.Life.Safe.{
  Inv, Fits, Orderly, born-Inv, Reach-Inv, Step-Inv, OwnerFits-at, Fits-at,
}

-- How many steps the reading thread makes at most before it has returned, once `running` is false.
abbrev to_return : Place → ℕ
to_return reading = 3
to_return serving = 2
to_return testing = 1
to_return _ = 0

to_return-le : (worker : Place) → to_return worker ≤ 3
to_return-le worker = ground arith

pub CanStep : Life → Type 0
CanStep s = (t : Life) × Step s t

-- k steps, in all of whose states the owner is in this `join`.
pub data Waits (calls : List Call) (s : Life) : ℕ → Life → Type 0 where
  waits : s.owner ≡ joining calls → Waits calls s 0 s
  still :
      {k : ℕ} {t u : Life}
      → Waits calls s k t
      → Step t u
      → u.owner ≡ joining calls
      → Waits calls s (suc k) u

-- A step ends the wait, or it brings the reading thread nearer to its end.
joining-nearer :
    (calls : List Call) {s t : Life}
    → Step s t
    → Inv s
    → s.owner ≡ joining calls
    → (t.owner ≡ calling calls)
      ⊎ ((t.owner ≡ joining calls) × (to_return t.worker < to_return s.worker))
joining-nearer calls (go_on at on) inv is =
    let (_, _, off) = OwnerFits-at is inv in absurd (ground arith)
joining-nearer calls (leave at off) inv is = inr (is, omega (arith, ap to_return at))
joining-nearer calls (fill at) inv is = inr (is, omega (arith, ap to_return at))
joining-nearer calls (serve at) inv is = inr (is, omega (arith, ap to_return at))
joining-nearer calls (start cs at free) inv is = absurd (ground arith)
joining-nearer calls (repeat cs at there) inv is = absurd (ground arith)
joining-nearer calls (stop_none cs at free) inv is = absurd (ground arith)
joining-nearer calls (stop_some cs at there) inv is = absurd (ground arith)
joining-nearer calls (stop_again cs at done) inv is = absurd (ground arith)
joining-nearer calls (join cs at done) inv is = inl (ground arith)
joining-nearer calls (delete at) inv is = absurd (ground arith)
joining-nearer calls (join_last at done) inv is = absurd (ground arith)

joining-CanStep : (calls : List Call) {s : Life} → Inv s → s.owner ≡ joining calls → CanStep s
unfolding CanStep
joining-CanStep calls {s} inv is =
    let (_, there, off) = OwnerFits-at is inv in next s.worker refl (Fits-at there inv) off
  where
    next :
        (worker : Place)
        → s.worker ≡ worker
        → Fits joinable s.worker
        → s.io.running ≡ false
        → (t : Life) × Step s t
    next absent at fits off = absurd (fits at)
    next testing at fits off = (_, leave at off)
    next reading at fits off = (_, fill at)
    next serving at fits off = (_, serve at)
    next returned at fits off = (_, join calls is at)

Waits-left :
    {calls : List Call} {s t : Life} {k : ℕ}
    → Waits calls s k t
    → Inv s
    → Inv t × (t.owner ≡ joining calls) × (to_return t.worker + k ≤ to_return s.worker)
Waits-left (waits is) inv = (inv, is, omega arith)
Waits-left {calls} (still before step is) inv =
    let (inv_t, is_t, left) = Waits-left before inv in
    elim (joining-nearer calls step inv_t is_t) [
      | inl free ↦ absurd (ground arith)
      | inr (_, nearer) ↦ (Step-Inv step inv_t, is, omega (arith, left, nearer))
    ]

-- If the calls have no `run`, or a `stop` after the first one: in every interleaving, a `stop` waits in
-- `join` during at most three steps, of which a return of `read` is one. As long as it waits, there is
-- a next step; and each step leaves it waiting or brings the owner back from the `stop`.
pub stop-joins :
    (n : ℕ) (calls rest : List Call) {s t : Life} (k : ℕ)
    → Orderly calls
    → Reach (born n calls) s
    → Waits rest s k t
    → (k ≤ 3)
      × CanStep t
      × ((u : Life) → Step t u → (u.owner ≡ calling rest) ⊎ (u.owner ≡ joining rest))
stop-joins n calls rest {s} {t} k h reach wait =
    let inv = Reach-Inv reach (born-Inv n calls h) in
    let (inv_t, is, left) = Waits-left wait inv in
    (
      omega (arith, left, to_return-le s.worker),
      joining-CanStep rest inv_t is,
      λ u step. elim (joining-nearer rest step inv_t is) [
        | inl free ↦ inl free
        | inr (still_in, _) ↦ inr still_in
      ],
    )
