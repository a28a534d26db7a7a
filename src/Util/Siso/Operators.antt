-- ===== src/Util/Siso/Operators.antt =====
-- The operators on systems, related to one another, and `rad_format` on exact numbers.
use robo_band.Base.{Bool-cases, if◌then◌else◌, ◌≡◌, refl, ◌⊎◌, inl, inr, arith}
use robo_band.Base.Float.{Float}
use robo_band.Base.Float.Milli.{milli, milli_float}
use robo_band.Base.Int.{
  negsuc, ltb_ℤ, leb_ℤ, +ℤ_parts, -ℤ_parts, ℤ, pos, neg_ℤ, ◌+ℤ◌, ◌-ℤ◌, ◌*ℤ◌, ◌/ℤ◌, ◌≤ℤ◌, ◌<ℤ◌,
}
use robo_band.Util.Siso.{SisoSys, func_siso, feed, chain, rad_format}

module _ {ℓ κ μ} {F : Type ℓ} ⦃f : Float F⦄ {T : Type κ} {U : Type μ} ⦃s : SisoSys F T⦄
    ⦃u : SisoSys F U⦄ where
  -- Feeding a chain is feeding its parts in order.
  pub feed-chain :
      (input : F) (siso1 : T) (siso2 : U)
      → feed input (chain {F = F} siso1 siso2) ≡ feed (feed input siso1).o siso2
  unfolding feed chain
  feed-chain input siso1 siso2 = refl

-- The same on integers.
wrap : ℤ → ℤ
wrap m =
    let raised = if ltb_ℤ m (neg_ℤ (pos 3142)) then m +ℤ pos 6284 else m in
    if leb_ℤ (pos 3142) raised then raised -ℤ pos 6284 else raised

rad_format-wrap : (m : ℤ) → rad_format (milli m) ≡ milli (wrap m)
unfolding rad_format wrap neg_ℤ ◌*ℤ◌ ◌/ℤ◌
rad_format-wrap m = elim (Bool-cases (ltb_ℤ m (negsuc 3141))) [
  | inl e ↦ rw e (ground arith)
  | inr e ↦ rw e (ground arith)
]

wrap_range :
    (m : ℤ)
    → neg_ℤ (pos 9426) ≤ℤ m
    → m <ℤ pos 9426
    → (neg_ℤ (pos 3142) ≤ℤ wrap m)
      × (wrap m <ℤ pos 3142)
      × ((wrap m ≡ m) ⊎ (wrap m ≡ m +ℤ pos 6284) ⊎ (wrap m ≡ m -ℤ pos 6284))
unfolding wrap neg_ℤ
wrap_range m lo hi =
    ground
      (arith, +ℤ_parts m (pos 6284), -ℤ_parts m (pos 6284), -ℤ_parts (m +ℤ pos 6284) (pos 6284))

-- On exact numbers, a value from -3π to 3π is moved by one whole turn or left alone, and ends in the
-- half-open range from -π to π.
pub rad_format_range :
    (m : ℤ)
    → neg_ℤ (pos 9426) ≤ℤ m
    → m <ℤ pos 9426
    → (r : ℤ) × (rad_format (milli m) ≡ milli r)
      × (neg_ℤ (pos 3142) ≤ℤ r)
      × (r <ℤ pos 3142)
      × ((r ≡ m) ⊎ (r ≡ m +ℤ pos 6284) ⊎ (r ≡ m -ℤ pos 6284))
rad_format_range m lo hi =
    let (low, high, turn) = wrap_range m lo hi in (wrap m, rad_format-wrap m, low, high, turn)
