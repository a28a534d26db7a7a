-- ===== src/Io/Serial/Search.antt =====
-- What the search for a head finds.
use robo_band.Base.{
  ℕ, zero, suc, ◌+◌, ◌≤◌, ◌<◌, ◌≡◌, true, false, none, some, List, [], ◌∷◌, arith, length, drop,
}
use robo_band.Io.Serial.Bytes.{starts_with, find_bytes}

pub starts_with-length :
    (head text : List ℕ) → starts_with head text ≡ true → length head ≤ length text
unfolding starts_with
starts_with-length [] text h = omega arith
starts_with-length (b ∷ head) [] h = cc
starts_with-length (b ∷ head) (c ∷ text) h = ground (arith, starts_with-length head text)

-- A position that is found is that of an occurrence.
pub find_bytes-some :
    (head text : List ℕ) (n : ℕ)
    → find_bytes head text ≡ some n
    → (starts_with head (drop n text) ≡ true) × (n + length head ≤ length text)
unfolding find_bytes
find_bytes-some head [] zero h = ground (arith, starts_with-length head [])
find_bytes-some head [] (suc n) h = absurd (ground arith)
find_bytes-some head (c ∷ text) zero h = ground (arith, starts_with-length head (c ∷ text))
find_bytes-some head (c ∷ text) (suc n) h = ground (arith, find_bytes-some head text n)

-- If none is found, there is no occurrence, and the head is not empty.
pub find_bytes-none :
    (head text : List ℕ) (n : ℕ)
    → find_bytes head text ≡ none
    → (starts_with head (drop n text) ≡ false) × (0 < length head)
unfolding find_bytes
find_bytes-none [] [] n h = cc
find_bytes-none [] (c ∷ text) n h = cc
find_bytes-none (b ∷ head) [] zero h = ground arith
find_bytes-none (b ∷ head) [] (suc n) h = ground arith
find_bytes-none (b ∷ head) (c ∷ text) zero h = ground arith
find_bytes-none (b ∷ head) (c ∷ text) (suc n) h = ground (arith, find_bytes-none (b ∷ head) text n)
