-- ===== src/Virtual/Motor/Examples.antt =====
-- Motors bound to two devices.
use robo_band.Base.{ℕ, suc, some, none, ◌≡◌, refl, [], ◌∷◌}
use robo_band.Virtual.Pointer.{member, owned}
use robo_band.Virtual.Motor.{MotorBinder, new_motor, bind, destroy, is_bound}
use robo_band.Virtual.Motor.Lifetime.{lifetime}

-- Torques are numbers, and the state is the last one set.
abbrev unitree : ℕ → MotorBinder ℕ ℕ
unitree d = record {
  set_torque = λ torque w. torque;
  angle = member d;
  speed = member (suc d);
  actual = some d;
}

abbrev webots : ℕ → MotorBinder ℕ ℕ
webots d = record (unitree d) { actual = none }

named : lifetime (new_motor 0 1) (unitree 5 ∷ unitree 7 ∷ []) ≡ owned 0 ∷ owned 1 ∷ []
unfolding lifetime new_motor bind destroy is_bound
named = refl

-- The members of both devices are deleted too.
nameless :
    lifetime (new_motor 0 1) (webots 5 ∷ webots 7 ∷ [])
    ≡ owned 0 ∷ owned 1 ∷ member 5 ∷ member 6 ∷ member 7 ∷ member 8 ∷ []
unfolding lifetime new_motor bind destroy is_bound
nameless = refl
