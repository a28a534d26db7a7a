-- ===== src/Io/Lifecycle/Life/Examples.antt =====
-- An IO that is run and stopped, and one that is destroyed while it runs.
use robo_band.Base.{◌≡◌, ◌≢◌, ◌↔◌, refl, false, [], ◌∷◌, List, arith, true}
use robo_band.Io.Lifecycle.{joinable, run, new_io}
use robo_band.Io.Lifecycle.Traces.{Call, runs, stops}
use robo_band.Io.Lifecycle.Life.{
  testing, joining, gone, Life, born, start, stop_some, Reach, here, later,
}
use robo_band.Io.Lifecycle.Life.Safe.{Orderly}
use robo_band.Io.Lifecycle.Life.Unsafe.{safe_iff, disorderly-unsafe}

abbrev once : List Call
once = runs ∷ stops ∷ []

abbrev stopping : Life
stopping = record {
  io = record { buffer_size = 16; running = false; thread = joinable };
  live = true;
  worker = testing;
  owner = joining [];
  stray = false;
}

once-Orderly : Orderly once
once-Orderly = λ e. ground arith

stopping-reached : Reach (born 16 once) stopping
unfolding born run new_io
stopping-reached = later (later here (start (stops ∷ []) refl refl)) (stop_some [] refl refl)

safe_iff_example : ((s : Life) → Reach (born 16 once) s → s.stray ≡ false) ↔ Orderly once
safe_iff_example = safe_iff 16 once

disorderly-unsafe_example :
    ((s : Life) → Reach (born 16 (stops ∷ runs ∷ runs ∷ [])) s → s.owner ≢ gone)
    × ((s : Life) × Reach (born 16 (stops ∷ runs ∷ runs ∷ [])) s × (s.stray ≡ true))
disorderly-unsafe_example = disorderly-unsafe 16 (stops ∷ runs ∷ runs ∷ []) refl
