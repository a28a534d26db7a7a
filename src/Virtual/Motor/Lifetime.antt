-- ===== src/Virtual/Motor/Lifetime.antt =====
-- What a motor deletes from its construction to its destruction.
use robo_band.Base.{ℕ, ◌≡◌, ◌≢◌, refl, none, List, [], ◌∷◌, ◌++◌, All, arith}
use robo_band.Virtual.Pointer.{Pointer, owned}
use robo_band.Virtual.Motor.{MotorBinder, Motor, new_motor, bind, destroy}

module _ {ℓ κ} {F : Type ℓ} {W : Type κ} where
  -- The pointers deleted while a motor is bound to some devices in turn and then destroyed.
  unfoldable pub lifetime : Motor F W → List (MotorBinder F W) → List Pointer
  lifetime m [] = destroy m
  lifetime m (binder ∷ binders) =
      let (bound, deleted) = bind m binder in deleted ++ lifetime bound binders

  abbrev pub HasActual : MotorBinder F W → Type 0
  HasActual binder = binder.actual ≢ none

  abbrev pub NoActual : MotorBinder F W → Type 0
  NoActual binder = binder.actual ≡ none

  abbrev pub members : List (MotorBinder F W) → List Pointer
  members [] = []
  members (binder ∷ binders) = binder.angle ∷ binder.speed ∷ members binders

  lifetime-bound :
      (m : Motor F W) (binders : List (MotorBinder F W))
      → m.actual ≢ none
      → All HasActual binders
      → lifetime m binders ≡ []
  unfolding lifetime bind destroy
  lifetime-bound m [] h hs = ground arith
  lifetime-bound m (binder ∷ binders) h (b, bs) =
      ground (arith, lifetime-bound (bind m binder).0 binders b bs)

  -- If every binder names its device, a motor deletes the two floats that it allocated, each once, and
  -- nothing else, however often it is bound.
  pub lifetime-owned :
      (a s : ℕ) (binders : List (MotorBinder F W))
      → All HasActual binders
      → lifetime (new_motor a s) binders ≡ owned a ∷ owned s ∷ []
  unfolding lifetime bind destroy new_motor
  lifetime-owned a s [] hs = refl
  lifetime-owned a s (binder ∷ binders) (b, bs) =
      rw (lifetime-bound (bind (new_motor a s) binder).0 binders b bs)

  lifetime-unbound :
      (m : Motor F W) (binders : List (MotorBinder F W))
      → m.actual ≡ none
      → All NoActual binders
      → lifetime m binders ≡ m.angle ∷ m.speed ∷ members binders
  unfolding lifetime bind destroy
  lifetime-unbound m [] h hs = ground arith
  lifetime-unbound m (binder ∷ binders) h (b, bs) =
      ground (arith, lifetime-unbound (bind m binder).0 binders b bs)

  -- If no binder names its device, as those of `WebotsMotor`, a motor also deletes the members of
  -- every device that it is bound to.
  pub lifetime-members :
      (a s : ℕ) (binders : List (MotorBinder F W))
      → All NoActual binders
      → lifetime (new_motor a s) binders ≡ owned a ∷ owned s ∷ members binders
  unfolding new_motor
  lifetime-members a s binders hs = lifetime-unbound (new_motor a s) binders refl hs
