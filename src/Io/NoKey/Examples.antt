-- ===== src/Io/NoKey/Examples.antt =====
-- Two unpackers that take messages of one length each, and count them.
use robo_band.Base.{ℕ, ◌+◌, ◌≡◌, refl, true, false, List, [], ◌∷◌, if◌then◌else◌, arith}
use robo_band.Base.Int.{pos, eqb_ℤ}
use robo_band.Io.NoKey.{Unpacker, offer}
use robo_band.Io.NoKey.Offers.{RejectsCleanly}

abbrev counts : ℕ → Unpacker ℕ
counts n buffer len w = if eqb_ℤ len (pos n) then (w + n, true) else (w, false)

abbrev counters : List (Unpacker ℕ)
counters = counts 3 ∷ counts 16 ∷ []

clean : (n : ℕ) → RejectsCleanly (counts n)
clean n buffer len w h = ground arith

taken : offer counters [] (pos 16) 100 ≡ (116, true)
unfolding offer
taken = refl
