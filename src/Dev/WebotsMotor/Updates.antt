-- ===== src/Dev/WebotsMotor/Updates.antt =====
-- The angle and the speed of a simulated motor after its updates.
use robo_band.Base.{◌≡◌, sym, ap, ◌∙◌, true, false}
use robo_band.Base.Int.{negsuc, ◌-ℤ◌, eqb_ℤ}
use robo_band.Base.Float.{Float, ◌-ᶠ◌, ◌*ᶠ◌, ◌/ᶠ◌}
use robo_band.Dev.WebotsMotor.{WebotsMotor, Tick, encoder_get_value, update}

module _ {F : Type 0} ⦃f : Float F⦄ where
  -- The simulation has not ended.
  abbrev pub IsRunning : Tick F → Type 0
  IsRunning t = eqb_ℤ t.now (negsuc 0) ≡ false

  -- The angle that a motor takes from a sample of its encoder.
  abbrev pub angle_at : WebotsMotor F → Tick F → F
  angle_at m t = f.of_int m.dir *ᶠ t.encoder -ᶠ m.angle_offset

  abbrev sampled : WebotsMotor F → Tick F → WebotsMotor F
  sampled m t = record m {
    angle = angle_at m t;
    speed = (angle_at m t -ᶠ m.angle_last) /ᶠ f.of_int (t.now -ℤ m.time_last);
    time_last = t.now;
    angle_last = angle_at m t;
  }

  update-new :
      (m : WebotsMotor F) (t : Tick F)
      → IsRunning t
      → eqb_ℤ t.now m.time_last ≡ false
      → update m t ≡ sampled m t
  unfolding update encoder_get_value
  update-new m t running new = rw (running, update) (rw new)

  update-same :
      (m : WebotsMotor F) (t : Tick F)
      → IsRunning t
      → eqb_ℤ t.now m.time_last ≡ true
      → update m t ≡ m
  unfolding update encoder_get_value
  update-same m t running same = rw (running, update) (rw same)

  -- While the simulation runs: after updates at two new times, a motor has the angle of the second
  -- sample, and as its speed the difference of the two angles over that of the times; a further update
  -- at the second time, with whatever sample, changes nothing.
  pub update-speed :
      (m : WebotsMotor F) (first second third : Tick F)
      → IsRunning first
      → IsRunning second
      → IsRunning third
      → eqb_ℤ first.now m.time_last ≡ false
      → eqb_ℤ second.now first.now ≡ false
      → eqb_ℤ third.now second.now ≡ true
      → let after = update (update m first) second in
        (after.angle ≡ angle_at m second)
        × (after.speed
            ≡ (angle_at m second -ᶠ angle_at m first) /ᶠ f.of_int (second.now -ℤ first.now))
        × (update after third ≡ after)
  update-speed m first second third r₁ r₂ r₃ new₁ new₂ same =
      let one = update-new m first r₁ new₁ in
      let two : update (update m first) second ≡ sampled (sampled m first) second =
        ap (λ (x : WebotsMotor F). update x second) one
        ∙ update-new (sampled m first) second r₂ new₂ in
      (
        ap (λ (x : WebotsMotor F). x.angle) two,
        ap (λ (x : WebotsMotor F). x.speed) two,
        ap (λ (x : WebotsMotor F). update x third) two
            ∙ (update-same (sampled (sampled m first) second) third r₃ same ∙ sym two),
      )
