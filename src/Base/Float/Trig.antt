-- ===== src/Base/Float/Trig.antt =====
-- The functions of <math.h> on floats that the kinematics uses.

pub record Trig {ℓ} (F : Type ℓ) : Type ℓ where
  pub sin : F → F
  pub cos : F → F
  pub acos : F → F
  pub sqrt : F → F
  pub atan2 : F → F → F
