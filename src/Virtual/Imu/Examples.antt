-- ===== src/Virtual/Imu/Examples.antt =====
-- An IMU bound twice to one device.
use robo_band.Base.{◌≡◌, refl, [], ◌∷◌}
use robo_band.Virtual.Pointer.{owned, member}
use robo_band.Virtual.Imu.{ImuBinder, new_imu, bind, destroy}
use robo_band.Virtual.Imu.Lifetime.{lifetime}

abbrev device : ImuBinder
device = record { angle = member 5; speed = member 6 }

bound_twice : lifetime (new_imu 0 1) (device ∷ device ∷ []) ≡ owned 0 ∷ owned 1 ∷ []
unfolding lifetime new_imu bind destroy
bound_twice = refl
