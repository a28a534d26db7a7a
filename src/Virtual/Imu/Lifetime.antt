-- ===== src/Virtual/Imu/Lifetime.antt =====
-- What an IMU deletes from its construction to its destruction.
use robo_band.Base.{ℕ, ◌≡◌, refl, true, List, [], ◌∷◌, ◌++◌}
use robo_band.Virtual.Pointer.{Pointer, owned}
use robo_band.Virtual.Imu.{Imu, ImuBinder, new_imu, bind, destroy}

-- The pointers deleted while an IMU is bound to some devices in turn and then destroyed.
unfoldable pub lifetime : Imu → List ImuBinder → List Pointer
lifetime imu [] = destroy imu
lifetime imu (binder ∷ binders) =
    let (bound, deleted) = bind imu binder in deleted ++ lifetime bound binders

lifetime-bound :
    (imu : Imu) (binders : List ImuBinder) → imu.is_bound ≡ true → lifetime imu binders ≡ []
unfolding lifetime bind destroy
lifetime-bound imu [] h = rw h
lifetime-bound imu (binder ∷ binders) h = rw h (lifetime-bound _ binders refl)

-- However often it is bound, an IMU deletes the two arrays that it allocated, each once, and nothing
-- else.
pub lifetime-owned_arrays :
    (a s : ℕ) (binders : List ImuBinder) → lifetime (new_imu a s) binders ≡ owned a ∷ owned s ∷ []
unfolding lifetime bind destroy new_imu
lifetime-owned_arrays a s [] = refl
lifetime-owned_arrays a s (binder ∷ binders) = rw (
    lifetime-bound (record { is_bound = true; angle = binder.angle; speed = binder.speed }) binders
      refl)
