-- ===== src/Dev/UnitreeMotor/Commands.antt =====
-- The commands that a motor is sent, over its history.
use robo_band.Base.{
  ℕ, ◌%◌, ◌≡◌, ◌≢◌, ◌∙◌, ap, sym, Bool, Option, none, some, List, [], ◌∷◌, ◌++◌, ◌==◌, ==_iff,
  Bool-cases, Option-cases, inl, inr, take, drop, ◌||◌, not,
}
use mathlib.Core.Option.{some-injective}
use robo_band.Base.Int.{ℤ}
use robo_band.Base.Float.{Float, zero_float}
use robo_band.Dev.UnitreeMotor.{
  UnitreeMotor, SendData, Info, normal, foc, send_head0, send_head1, new_unitree_motor, set_torque,
  set_angle_offset, set_angle, unpack, command_bytes, info_byte, read_feedback, resv_head0,
  resv_head1,
}
use robo_band.Dev.UnitreeMotor.Words.{word, low_bytes}

abbrev bytes_between : ℤ × ℤ × ℤ × ℤ → List ℕ
bytes_between (speed, angle, k_pos, k_spd) =
    low_bytes 2 (word 16 speed)
    ++ (low_bytes 4 (word 32 angle) ++ (low_bytes 2 (word 16 k_pos) ++ low_bytes 2 (word 16 k_spd)))

-- What the methods are called with.
pub data Call {ℓ} (F : Type ℓ) : Type ℓ where
  sets_torque sets_offset sets_angle : F → Call F
  receives : List ℕ → Call F

module _ {ℓ} {F : Type ℓ} ⦃f : Float F⦄ (crc : List ℕ → ℕ) where
  -- Once a motor has reported an error, the torque that is asked for does not matter: what is sent, and
  -- the object after, are those of a request of no torque.
  pub set_torque_fault :
      (m : UnitreeMotor F) (torque : F)
      → m.err ≢ normal
      → set_torque crc m torque ≡ set_torque crc m zero_float
  unfolding set_torque
  set_torque_fault m torque h = elim (Bool-cases (m.err == normal)) [
    | inl e ↦ absurd (h ((==_iff m.err normal).0 e))
    | inr e ↦ rw e
  ]

  unfoldable pub call : UnitreeMotor F → Call F → Option (UnitreeMotor F)
  call m (sets_torque x) = some (set_torque crc m x).0
  call m (sets_offset x) = some (set_angle_offset m x)
  call m (sets_angle x) = some (set_angle m x)
  call m (receives bytes) = elim (unpack crc m bytes) [ none ↦ none | some (m', _) ↦ some m' ]

  unfoldable pub call_all : UnitreeMotor F → List (Call F) → Option (UnitreeMotor F)
  call_all m [] = some m
  call_all m (c ∷ cs) = elim (call m c) [ none ↦ none | some m' ↦ call_all m' cs ]

  -- What no method changes: all of `send_data` but the torque and the checksum.
  abbrev pub frozen : UnitreeMotor F → (ℕ × ℤ) × (ℕ × ℕ × Info) × (ℤ × ℤ × ℤ × ℤ)
  frozen m =
      let sent = m.send_data in
      (
        (m.id, m.dir),
        (sent.head0, sent.head1, sent.info),
        (sent.msg.speed_set, sent.msg.angle_set, sent.msg.k_pos_set, sent.msg.k_spd_set),
      )

  -- What a report leaves alone.
  abbrev kept : UnitreeMotor F → ℕ × ℤ × SendData
  kept m = (m.id, m.dir, m.send_data)

  unpack-kept :
      (m m' : UnitreeMotor F) (bytes : List ℕ) (taken : Bool)
      → unpack crc m bytes ≡ some (m', taken)
      → kept m' ≡ kept m
  unfolding unpack
  unpack-kept m m' bytes taken h = elim (Option-cases (read_feedback bytes)) [
    | inl e ↦ cc (rw (e, unpack) at h)
    | inr (fbk, e) ↦
        let wrong_head =
          not (fbk.head0 == resv_head0) || not (fbk.head1 == resv_head1) || not (fbk.id == m.id) in
        elim (Bool-cases wrong_head) [
          | inl b ↦ cc (rw (e, b, unpack) at h)
          | inr b ↦ elim (Bool-cases (not (fbk.crc == crc (take 14 bytes)))) [
            | inl c ↦ cc (rw (e, b, c, unpack) at h)
            | inr c ↦ cc (rw (e, b, c, unpack) at h)
          ]
        ]
  ]

  call-frozen : (m m' : UnitreeMotor F) (c : Call F) → call m c ≡ some m' → frozen m' ≡ frozen m
  unfolding call set_torque set_angle_offset set_angle
  call-frozen m m' (sets_torque x) h = ap frozen (sym (some-injective _ m' h))
  call-frozen m m' (sets_offset x) h = ap frozen (sym (some-injective _ m' h))
  call-frozen m m' (sets_angle x) h = ap frozen (sym (some-injective _ m' h))
  call-frozen m m' (receives bytes) h = elim (Option-cases (unpack crc m bytes)) [
    | inl e ↦ cc (rw (e, call) at h)
    | inr ((m'', taken), e) ↦
        let same : kept m'' ≡ kept m = unpack-kept m m'' bytes taken e in
        let next : m'' ≡ m' = some-injective m'' m' (rw (e, call) at h) in cc (same, next)
  ]

  call_all-frozen :
      (m m' : UnitreeMotor F) (cs : List (Call F)) → call_all m cs ≡ some m' → frozen m' ≡ frozen m
  unfolding call_all
  call_all-frozen m m' [] h = ap frozen (sym (some-injective _ m' h))
  call_all-frozen m m' (c ∷ cs) h = elim (Option-cases (call m c)) [
    | inl e ↦ cc (rw (e, call_all) at h)
    | inr (next, e) ↦ call_all-frozen next m' cs (rw (e, call_all) at h) ∙ call-frozen m next c e
  ]

  -- Between the torque and the checksum, every command that a motor is sent holds what `send_data`
  -- held before the constructor ran, whatever was called before: nothing sets the speed, the angle
  -- and the two gains. The head is the protocol's, and the byte after it has the number, the mode FOC
  -- and a bit that nothing sets either.
  pub set_torque-unset :
      (raw : SendData) (id : ℕ) (dir : ℤ) (cs : List (Call F)) (m : UnitreeMotor F) (torque : F)
      → call_all (new_unitree_motor raw id dir) cs ≡ some m
      → let sent = (set_torque crc m torque).1 in
        let info : Info = record { id = id % 16; mode = foc; reserved = raw.info.reserved } in
        (take 3 sent ≡ send_head0 ∷ send_head1 ∷ info_byte info ∷ [])
        × (take 10 (drop 5 sent)
            ≡ low_bytes 2 (word 16 raw.msg.speed_set)
              ++ (low_bytes 4 (word 32 raw.msg.angle_set)
                  ++ (low_bytes 2 (word 16 raw.msg.k_pos_set)
                      ++ low_bytes 2 (word 16 raw.msg.k_spd_set))))
  unfolding set_torque command_bytes low_bytes new_unitree_motor
  set_torque-unset raw id dir cs m torque h =
      let same = call_all-frozen (new_unitree_motor raw id dir) m cs h in
      (ap (λ p. p.1.0 ∷ p.1.1 ∷ info_byte p.1.2 ∷ []) same, ap (λ p. bytes_between p.2) same)
