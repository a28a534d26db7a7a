-- ===== src/Io/Lifecycle/Examples.antt =====
-- Calls on one IO object.
use robo_band.Base.{◌≡◌, refl, [], ◌∷◌, some}
use robo_band.Io.Lifecycle.{new_io, destroy, start_thread, join_thread, delete_buffer}
use robo_band.Io.Lifecycle.Traces.{runs, stops, call_all, call_all-new_io, started, stopped}

-- The destructor of a running object deletes the buffer that its thread reads into, and then joins it.
destroyed : destroy (started 16) ≡ delete_buffer ∷ join_thread ∷ []
unfolding destroy
destroyed = refl

call_all-new_io_example :
    call_all (new_io 16) (stops ∷ runs ∷ runs ∷ stops ∷ runs ∷ [])
    ≡ some (stopped 16, start_thread ∷ join_thread ∷ [])
call_all-new_io_example = call_all-new_io 16 (stops ∷ runs ∷ runs ∷ stops ∷ runs ∷ [])
