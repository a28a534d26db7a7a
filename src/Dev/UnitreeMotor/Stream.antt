-- ===== src/Dev/UnitreeMotor/Stream.antt =====
-- The motors on one serial port, and the reports that arrive on it.
use robo_band.Base.{
  ℕ, ◌+◌, ◌<◌, ◌≡◌, ◌∙◌, refl, sym, ap, Bool, true, false, ◌||◌, Option, none, some, List, [], ◌∷◌,
  All, if◌then◌else◌, ◌==◌, ==_iff, Bool-cases, inl, inr, map, arith,
}
use robo_band.Base.Int.{ℤ, pos, ltb_ℤ}
use robo_band.Base.Float.{Float}
use robo_band.Io.NoKey.{Served, offer, serve, thread_func}
use robo_band.Io.NoKey.Offers.{offer-taken, offer-left}
use robo_band.Io.Serial.Thread.Frames.{whole_read}
use robo_band.Dev.UnitreeMotor.{UnitreeMotor, angle_of, speed_of}
use robo_band.Dev.UnitreeMotor.Frames.{Report, IsFeasible, body, frame, reported}
use robo_band.Dev.UnitreeMotor.Bus.{
  update, motor_unpacker, unpackers, motor_unpacker-frame, motor_unpacker-other,
}

abbrev pub elem : ℕ → List ℕ → Bool
elem k [] = false
elem k (j ∷ ks) = (j == k) || elem k ks

-- The later of two.
abbrev pub later_of : Option Report → Option Report → Option Report
later_of early none = early
later_of early (some r) = some r

-- The last report with this number.
abbrev pub last_of : ℕ → List Report → Option Report
last_of k [] = none
last_of k (r ∷ rs) = later_of (if r.id == k then some r else none) (last_of k rs)

-- The reports with a number that no motor has.
abbrev pub count_unknown : List ℕ → List Report → ℕ
count_unknown ks [] = 0
count_unknown ks (r ∷ rs) = (if elem r.id ks then 0 else 1) + count_unknown ks rs

-- A report that can be sent: its members and the checksum fit.
abbrev pub IsSent : (List ℕ → ℕ) → Report → Type 0
IsSent crc r = IsFeasible r × (crc (body r) < 65536)

module _ {ℓ} {F : Type ℓ} ⦃f : Float F⦄ (crc : List ℕ → ℕ) where
  -- The motor after its last report, or as it was.
  abbrev pub told : UnitreeMotor F → Option Report → UnitreeMotor F
  told m none = m
  told m (some r) = reported crc m r

  -- The motors after a report.
  abbrev hear : List ℕ → Report → (ℕ → UnitreeMotor F) → (ℕ → UnitreeMotor F)
  hear ks r motors =
      if elem r.id ks then update motors r.id (reported crc (motors r.id) r) else motors

  offer-hear :
      (ks : List ℕ) (r : Report) (len : ℤ) (motors : ℕ → UnitreeMotor F)
      → IsSent crc r
      → ((k : ℕ) → (motors k).id ≡ k)
      → offer (unpackers crc ks) (frame crc r) len motors ≡ (hear ks r motors, elem r.id ks)
  unfolding offer
  offer-hear [] r len motors sent ids = refl
  offer-hear (j ∷ ks) r len motors (v, sum) ids = elim (Bool-cases (j == r.id)) [
    | inl same ↦
        let at : j ≡ r.id = (==_iff j r.id).0 same in
        offer-taken (motor_unpacker crc j) (unpackers crc ks) (frame crc r) len motors
          (motor_unpacker-frame crc r v sum len j motors (sym at ∙ sym (ids j)))
        ∙ (ap (λ i. (update motors i (reported crc (motors i) r), true)) at ∙ rw same refl)
    | inr other ↦
        offer-left (motor_unpacker crc j) (unpackers crc ks) (frame crc r) len motors
          (motor_unpacker-other crc r v sum len j motors (λ e. ground (arith, ids j)))
        ∙ (offer-hear ks r len motors (v, sum) ids ∙ rw other refl)
  ]

  hear-id :
      (ks : List ℕ) (r : Report) (motors : ℕ → UnitreeMotor F)
      → ((k : ℕ) → (motors k).id ≡ k)
      → (k : ℕ) → (hear ks r motors k).id ≡ k
  hear-id ks r motors ids k = elim (Bool-cases (elem r.id ks)) [
    | inl known ↦ rw known (elim (Bool-cases (k == r.id)) [
      | inl at ↦ rw at (ids r.id ∙ sym ((==_iff k r.id).0 at))
      | inr other ↦ rw other (ids k)
    ])
    | inr unknown ↦ rw unknown (ids k)
  ]

  hear_self :
      (ks : List ℕ) (r : Report) (motors : ℕ → UnitreeMotor F) (k : ℕ)
      → elem k ks ≡ true
      → k ≡ r.id
      → hear ks r motors k ≡ reported crc (motors k) r
  hear_self ks r motors k there at =
      let known : elem r.id ks ≡ true = ap (λ i. elem i ks) (sym at) ∙ there in
      let here : (k == r.id) ≡ true = (==_iff k r.id).1 at in
      rw (known, here) (ap (λ i. reported crc (motors i) r) (sym at))

  hear_other :
      (ks : List ℕ) (r : Report) (motors : ℕ → UnitreeMotor F) (k : ℕ)
      → (k == r.id) ≡ false
      → hear ks r motors k ≡ motors k
  hear_other ks r motors k other = elim (Bool-cases (elem r.id ks)) [
    | inl known ↦ rw (known, other) refl
    | inr unknown ↦ rw unknown refl
  ]

  told-reported :
      (m : UnitreeMotor F) (r : Report) (o : Option Report)
      → told (reported crc m r) o ≡ told m (later_of (some r) o)
  unfolding angle_of speed_of
  told-reported m r none = refl
  told-reported m r (some q) = refl

  told-same : (m : UnitreeMotor F) (o : Option Report) → told m o ≡ told m (later_of none o)
  told-same m none = refl
  told-same m (some q) = refl

  -- A report is the last one of its number, until a later one comes.
  told-cons :
      (ks : List ℕ) (r : Report) (rs : List Report) (motors : ℕ → UnitreeMotor F) (k : ℕ)
      → elem k ks ≡ true
      → told (hear ks r motors k) (last_of k rs) ≡ told (motors k) (last_of k (r ∷ rs))
  told-cons ks r rs motors k there = elim (Bool-cases (k == r.id)) [
    | inl here ↦
        let at : k ≡ r.id = (==_iff k r.id).0 here in
        let here' : (r.id == k) ≡ true = (==_iff r.id k).1 (sym at) in
        rw here' (
          ap (λ m. told m (last_of k rs)) (hear_self ks r motors k there at)
          ∙ told-reported (motors k) r (last_of k rs))
    | inr other ↦
        let other' : (r.id == k) ≡ false = ground arith in
        rw other' (
          ap (λ m. told m (last_of k rs)) (hear_other ks r motors k other)
          ∙ told-same (motors k) (last_of k rs))
  ]

  hear_stranger :
      (ks : List ℕ) (r : Report) (motors : ℕ → UnitreeMotor F) (k : ℕ)
      → elem k ks ≡ false
      → hear ks r motors k ≡ motors k
  hear_stranger ks r motors k out = elim (Bool-cases (elem r.id ks)) [
    | inl known ↦ rw known (elim (Bool-cases (k == r.id)) [
      | inl at ↦ absurd (ground (arith, ap (λ i. elem i ks) ((==_iff k r.id).0 at)))
      | inr other ↦ rw other refl
    ])
    | inr unknown ↦ rw unknown refl
  ]

  module _ (size : ℕ) (ks : List ℕ) where
    -- What the thread makes of whole frames, one after another.
    abbrev pub run : List Report → Served (ℕ → UnitreeMotor F) → Served (ℕ → UnitreeMotor F)
    run rs served =
        thread_func size (unpackers crc ks) (map (whole_read size) (map (frame crc) rs)) served

    abbrev heard : Report → Served (ℕ → UnitreeMotor F) → Served (ℕ → UnitreeMotor F)
    heard r served = record {
      world = hear ks r served.world;
      warnings = if elem r.id ks then served.warnings else served.warnings + 1;
      buffer = frame crc r;
    }

    serve-hear :
        (r : Report) (served : Served (ℕ → UnitreeMotor F))
        → 0 < size
        → IsSent crc r
        → ((k : ℕ) → (served.world k).id ≡ k)
        → serve size (unpackers crc ks) (whole_read size (frame crc r)) served ≡ heard r served
    unfolding serve
    serve-hear r served positive sent ids =
        let some_bytes : ltb_ℤ (pos 0) (pos size) ≡ true = ground arith in
        rw (some_bytes, offer-hear ks r (pos size) served.world sent ids) refl

    run-cons :
        (r : Report) (rs : List Report) (served : Served (ℕ → UnitreeMotor F))
        → run (r ∷ rs) served
          ≡ run rs (serve size (unpackers crc ks) (whole_read size (frame crc r)) served)
    unfolding thread_func
    run-cons r rs served = refl

    -- Every motor that is asked is as its last report says.
    pub run-told :
        (rs : List Report) (served : Served (ℕ → UnitreeMotor F)) (k : ℕ)
        → 0 < size
        → All (IsSent crc) rs
        → ((j : ℕ) → (served.world j).id ≡ j)
        → elem k ks ≡ true
        → (run rs served).world k ≡ told (served.world k) (last_of k rs)
    unfolding thread_func
    run-told [] served k positive all ids there = refl
    run-told (r ∷ rs) served k positive (sent, all) ids there =
        rw (run-cons r rs served, serve-hear r served positive sent ids)
          (run-told rs (heard r served) k positive all (hear-id ks r served.world ids) there
            ∙ told-cons ks r rs served.world k there)

    -- The others are as they were.
    pub run-stranger :
        (rs : List Report) (served : Served (ℕ → UnitreeMotor F)) (k : ℕ)
        → 0 < size
        → All (IsSent crc) rs
        → ((j : ℕ) → (served.world j).id ≡ j)
        → elem k ks ≡ false
        → (run rs served).world k ≡ served.world k
    unfolding thread_func
    run-stranger [] served k positive all ids out = refl
    run-stranger (r ∷ rs) served k positive (sent, all) ids out =
        rw (run-cons r rs served, serve-hear r served positive sent ids)
          (run-stranger rs (heard r served) k positive all (hear-id ks r served.world ids) out
            ∙ hear_stranger ks r served.world k out)

    -- A report to no motor is logged.
    pub run-warnings :
        (rs : List Report) (served : Served (ℕ → UnitreeMotor F))
        → 0 < size
        → All (IsSent crc) rs
        → ((j : ℕ) → (served.world j).id ≡ j)
        → (run rs served).warnings ≡ served.warnings + count_unknown ks rs
    unfolding thread_func
    run-warnings [] served positive all ids = omega arith
    run-warnings (r ∷ rs) served positive (sent, all) ids =
        rw (run-cons r rs served, serve-hear r served positive sent ids)
          (run-warnings rs (heard r served) positive all (hear-id ks r served.world ids)
            ∙ ground arith)
