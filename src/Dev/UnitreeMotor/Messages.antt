-- ===== src/Dev/UnitreeMotor/Messages.antt =====
-- The messages of the errors, `err_msg` of src/dev/unitree_motor.cc, and the one that `unpack` logs.
use Prim.Native.String.{String}
use robo_band.Base.{
  ℕ, zero, suc, ◌<◌, ◌%◌, ◌≡◌, ◌≢◌, ◌⊎◌, ap, refl, Bool, Option, none, some, List, [], ◌∷◌, ◌==◌,
  ==_iff, Bool-cases, Option-cases, inl, inr, length, get_elem?, if◌then◌else◌, arith,
}
use mathlib.Core.Option.{some-injective}
use mathlib.Core.Path.{subst}
use robo_band.Base.Float.{Float}
use robo_band.Dev.UnitreeMotor.{
  UnitreeMotor, SendData, Feedback, normal, new_unitree_motor, set_torque, set_angle_offset,
  set_angle, unpack, read_feedback,
}
use robo_band.Base.Int.{ℤ}
use robo_band.Dev.UnitreeMotor.Commands.{
  Call, sets_torque, sets_offset, sets_angle, receives, call, call_all,
}

abbrev pub err_msg : List String
err_msg =
    "Normal" ∷ "Overheat" ∷ "Overcurrent" ∷ "Overvoltage" ∷ "Encoder fault" ∷ "Bus undervoltage"
    ∷ "Winding overheat" ∷ "Reserved" ∷ []

-- The number and the text that `unpack` logs once it has set `err`, if it logs; a text of none is a read
-- past the end of the table.
unfoldable pub logged {ℓ} : {F : Type ℓ} → UnitreeMotor F → Option (ℕ × Option String)
logged m = if m.err == normal then none else some (m.err, get_elem? err_msg m.err)

get_elem?-some {ℓ} :
    {A : Type ℓ} (xs : List A) (i : ℕ) → i < length xs → (a : A) × (get_elem? xs i ≡ some a)
get_elem?-some [] i h = absurd (omega arith)
get_elem?-some (x ∷ xs) zero h = (x, refl)
get_elem?-some (x ∷ xs) (suc i) h = get_elem?-some xs i (omega arith)

-- The three bits of the error in a report.
read_feedback-err : (bytes : List ℕ) (fbk : Feedback) → read_feedback bytes ≡ some fbk → fbk.err < 8
unfolding read_feedback
read_feedback-err
      (h0 ∷ h1 ∷ i ∷ t0 ∷ t1 ∷ s0 ∷ s1 ∷ a0 ∷ a1 ∷ a2 ∷ a3 ∷ temp ∷ e0 ∷ e1 ∷ c0 ∷ c1 ∷ rest) fbk
      h =
    let err : e0 % 8 ≡ fbk.err = ap (λ (x : Feedback). x.err) (some-injective _ _ h) in omega arith
read_feedback-err _ fbk h = absurd (ground arith)

module _ {ℓ} {F : Type ℓ} ⦃f : Float F⦄ (crc : List ℕ → ℕ) where
  unpack-err :
      (m m' : UnitreeMotor F) (bytes : List ℕ) (taken : Bool)
      → unpack crc m bytes ≡ some (m', taken)
      → m.err < 8
      → m'.err < 8
  unfolding unpack
  unpack-err m m' bytes taken h inside = elim (Option-cases (read_feedback bytes)) [
    | inl e ↦ cc (rw (e, unpack) at h)
    | inr (fbk, e) ↦
        let reported = read_feedback-err bytes fbk e in ground (arith, rw (e, unpack) at h)
  ]

  call-err : (m m' : UnitreeMotor F) (c : Call F) → call crc m c ≡ some m' → m.err < 8 → m'.err < 8
  unfolding call set_torque set_angle_offset set_angle
  call-err m m' (sets_torque x) h inside =
      subst (λ (x : UnitreeMotor F). x.err < 8) (some-injective _ m' h) inside
  call-err m m' (sets_offset x) h inside =
      subst (λ (x : UnitreeMotor F). x.err < 8) (some-injective _ m' h) inside
  call-err m m' (sets_angle x) h inside =
      subst (λ (x : UnitreeMotor F). x.err < 8) (some-injective _ m' h) inside
  call-err m m' (receives bytes) h inside = elim (Option-cases (unpack crc m bytes)) [
    | inl e ↦ cc (rw (e, call) at h)
    | inr ((next, taken), e) ↦
        subst (λ (x : UnitreeMotor F). x.err < 8) (some-injective next m' (rw (e, call) at h))
          (unpack-err m next bytes taken e inside)
  ]

  call_all-err :
      (m m' : UnitreeMotor F) (cs : List (Call F))
      → call_all crc m cs ≡ some m'
      → m.err < 8
      → m'.err < 8
  unfolding call_all
  call_all-err m m' [] h inside =
      subst (λ (x : UnitreeMotor F). x.err < 8) (some-injective m m' h) inside
  call_all-err m m' (c ∷ cs) h inside = elim (Option-cases (call crc m c)) [
    | inl e ↦ cc (rw (e, call_all) at h)
    | inr (next, e) ↦ call_all-err next m' cs (rw (e, call_all) at h) (call-err m next c e inside)
  ]

  -- Whatever is called on a new motor, and whatever bytes it gets: either its state is NORMAL and nothing
  -- is logged, or it is an error, and its number is logged with a text of the table, which is never
  -- read past its end.
  pub logged-text :
      (raw : SendData) (id : ℕ) (dir : ℤ) (cs : List (Call F)) (m : UnitreeMotor F)
      → call_all crc (new_unitree_motor raw id dir) cs ≡ some m
      → ((m.err ≡ normal) × (logged m ≡ none))
        ⊎ ((m.err ≢ normal) × ((text : String) × (logged m ≡ some (m.err, some text))))
  unfolding logged new_unitree_motor
  logged-text raw id dir cs m h =
      let inside = call_all-err (new_unitree_motor raw id dir) m cs h (ground arith) in
      let (text, e) = get_elem?-some err_msg m.err inside in
      elim (Bool-cases (m.err == normal)) [
        | inl fine ↦ inl ((==_iff m.err normal).0 fine, rw fine refl)
        | inr fault ↦ inr (λ same. ground arith, (text, rw (fault, e) refl))
      ]
