-- ===== src/Io/NoKey/Offers.antt =====
-- A message goes to the first unpacker that takes it, and to no other.
use robo_band.Base.{
  ℕ, ◌≡◌, refl, Bool, false, List, [], ◌∷◌, arith, if◌then◌else◌, All, Bool-cases, inl, inr, ap,
  true,
}
use robo_band.Base.Int.{ℤ}
use robo_band.Io.NoKey.{Unpacker, Read, Served, offer, serve, thread_func}

module _ {ℓ} {W : Type ℓ} where
  -- An unpacker that does not take a message leaves the state alone.
  abbrev pub RejectsCleanly : Unpacker W → Type ℓ
  RejectsCleanly u =
      (buffer : List ℕ) (len : ℤ) (w : W) → (u buffer len w).1 ≡ false → (u buffer len w).0 ≡ w

  -- Only the first unpacker that would take the message in the state as it is.
  abbrev pub first_taker : List (Unpacker W) → List ℕ → ℤ → W → W × Bool
  first_taker [] buffer len w = (w, false)
  first_taker (u ∷ us) buffer len w =
      if (u buffer len w).1 then u buffer len w else first_taker us buffer len w

  pub offer-taken :
      (u : Unpacker W) (us : List (Unpacker W)) (buffer : List ℕ) (len : ℤ) (w : W) {w' : W}
      → u buffer len w ≡ (w', true)
      → offer (u ∷ us) buffer len w ≡ (w', true)
  unfolding offer
  offer-taken u us buffer len w e = rw (ap (λ p. p.1) e, offer) (ap (λ p. (p.0, true)) e)

  pub offer-left :
      (u : Unpacker W) (us : List (Unpacker W)) (buffer : List ℕ) (len : ℤ) (w : W) {w' : W}
      → u buffer len w ≡ (w', false)
      → offer (u ∷ us) buffer len w ≡ offer us buffer len w'
  unfolding offer
  offer-left u us buffer len w e = rw (ap (λ p. p.1) e, offer) (ap (λ p. offer us buffer len p.0) e)

  -- If every unpacker that does not take a message leaves the state alone, the message has the effect
  -- of the first unpacker that takes it, and none if no one does.
  pub offer-first_taker :
      (us : List (Unpacker W)) (buffer : List ℕ) (len : ℤ) (w : W)
      → All RejectsCleanly us
      → offer us buffer len w ≡ first_taker us buffer len w
  unfolding offer
  offer-first_taker [] buffer len w clean = refl
  offer-first_taker (u ∷ us) buffer len w (c, cs) = elim (Bool-cases (u buffer len w).1) [
    | inl took ↦ rw took (ground arith)
    | inr left ↦ rw left (rw (c buffer len w left) (offer-first_taker us buffer len w cs))
  ]

  -- What an earlier message left in the buffer reaches no unpacker: another content of the buffer at
  -- the start gives the same states and the same warnings.
  pub thread_func-buffer :
      (buffer_size : ℕ) (us : List (Unpacker W)) (reads : List Read) (s : Served W) (other : List ℕ)
      → let run = thread_func buffer_size us reads s in
        let run' = thread_func buffer_size us reads (record s { buffer = other }) in
        (run.world ≡ run'.world) × (run.warnings ≡ run'.warnings)
  unfolding thread_func serve
  thread_func-buffer buffer_size us [] s other = (refl, refl)
  thread_func-buffer buffer_size us (read ∷ reads) s other = (refl, refl)
