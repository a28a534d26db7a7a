-- ===== src/Dev/UnitreeMotor/Words.antt =====
-- Machine integers as bytes, the low byte first.
use robo_band.Base.{
  ℕ, zero, suc, ◌+◌, ◌-◌, ◌*◌, ◌/◌, ◌%◌, ◌^◌, ◌<◌, ◌≡◌, List, [], ◌∷◌, arith, ltb, if◌then◌else◌,
}
use robo_band.Base.Int.{ℤ, pos, negsuc, ◌≤ℤ◌}

unfoldable pub u16 : ℕ → ℕ → ℕ
u16 b0 b1 = b0 + 256 * b1

unfoldable pub u32 : ℕ → ℕ → ℕ → ℕ → ℕ
u32 b0 b1 b2 b3 = b0 + 256 * b1 + 65536 * b2 + 16777216 * b3

-- The integer that a pattern of some bits stands for in two's complement, given half and all of the
-- number of patterns.
unfoldable pub signed : ℕ → ℕ → ℕ → ℤ
signed half all w = if ltb w half then pos w else negsuc (all - w - 1)

unfoldable pub i8 : ℕ → ℤ
unfolding signed
i8 b = signed 128 256 b

unfoldable pub i16 : ℕ → ℕ → ℤ
unfolding signed u16
i16 b0 b1 = signed 32768 65536 (u16 b0 b1)

unfoldable pub i32 : ℕ → ℕ → ℕ → ℕ → ℤ
unfolding signed u32
i32 b0 b1 b2 b3 = signed 2147483648 4294967296 (u32 b0 b1 b2 b3)

-- The pattern of an integer in a number of bits.
unfoldable pub word : ℕ → ℤ → ℕ
word bits (pos n) = n % 2 ^ bits
word bits (negsuc n) = 2 ^ bits - 1 - n % 2 ^ bits

unfoldable pub low_bytes : ℕ → ℕ → List ℕ
low_bytes zero w = []
low_bytes (suc n) w = w % 256 ∷ low_bytes n (w / 256)

pub i16-word :
    (z : ℤ) → negsuc 32767 ≤ℤ z → z ≤ℤ pos 32767 → i16 (word 16 z % 256) (word 16 z / 256 % 256) ≡ z
unfolding i16 word
i16-word (pos n) lo hi = ground arith
i16-word (negsuc n) lo hi = ground arith

pub i32-word :
    (z : ℤ)
    → negsuc 2147483647 ≤ℤ z
    → z ≤ℤ pos 2147483647
    → i32
        (word 32 z % 256)
        (word 32 z / 256 % 256)
        (word 32 z / 256 / 256 % 256)
        (word 32 z / 256 / 256 / 256 % 256)
      ≡ z
unfolding i32 word
i32-word (pos n) lo hi = ground arith
i32-word (negsuc n) lo hi = ground arith

pub i8-word : (z : ℤ) → negsuc 127 ≤ℤ z → z ≤ℤ pos 127 → i8 (word 8 z % 256) ≡ z
unfolding i8 word
i8-word (pos n) lo hi = ground arith
i8-word (negsuc n) lo hi = ground arith

pub u16-bytes : (w : ℕ) → w < 65536 → u16 (w % 256) (w / 256 % 256) ≡ w
unfolding u16
u16-bytes w h = omega arith
