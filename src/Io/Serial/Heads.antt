-- ===== src/Io/Serial/Heads.antt =====
-- The loop over the frame heads: what it keeps of the bytes read.
use robo_band.Base.{
  ℕ, zero, suc, ◌+◌, ◌-◌, ◌≤◌, ◌<◌, ◌≡◌, ◌∙◌, ◌⊎◌, refl, sym, true, Option, none, some, List, [],
  ◌∷◌, arith, length, drop, take, Bool-cases, inl, inr, ltb, length-take, length-drop,
  length-append, take-append_exact, drop-take, drop-length, tests,
}
use robo_band.Io.Serial.{HeadTails, move_down, scan_heads}
use robo_band.Io.Serial.Bytes.{starts_with, find_bytes}
use robo_band.Io.Serial.Search.{find_bytes-some, find_bytes-none}

length-move_down :
    (buffer : List ℕ) (start n : ℕ)
    → start + n ≤ length buffer
    → length (move_down buffer start n) ≡ length buffer
unfolding move_down
length-move_down buffer start n h = omega (
  arith,
  length-append (take n (drop start buffer)) (drop n buffer),
  length-take n (drop start buffer),
  length-drop start buffer,
  length-drop n buffer,
)

take-move_down :
    (buffer : List ℕ) (start n : ℕ)
    → start + n ≤ length buffer
    → take n (move_down buffer start n) ≡ take n (drop start buffer)
unfolding move_down
take-move_down buffer start n h =
    take-append_exact n _ (drop n buffer)
      (omega (arith, length-take n (drop start buffer), length-drop start buffer))

-- What the loop leaves: a buffer of the same size that begins with the last bytes read.
pub record Kept (buffer : List ℕ) (read_len : ℕ) (out : List ℕ × ℕ) : Type 0 where
  pub sized : length out.0 ≡ length buffer
  pub fewer : out.1 ≤ read_len
  pub latest : take out.1 out.0 ≡ drop (read_len - out.1) (take read_len buffer)

Kept-all : (buffer : List ℕ) (n : ℕ) → Kept buffer n (buffer, n)
Kept-all buffer n = record {
  sized = refl;
  fewer = omega arith;
  latest = let nothing : n - n ≡ 0 = omega arith in rw nothing;
}

Kept-none : (buffer : List ℕ) (n : ℕ) → n ≤ length buffer → Kept buffer n (buffer, 0)
Kept-none buffer n h = record {
  sized = refl;
  fewer = omega arith;
  latest = sym (drop-length (n - 0) (take n buffer) (omega (arith, length-take n buffer)));
}

Kept-moved :
    (buffer : List ℕ) (n q : ℕ)
    → n ≤ length buffer
    → q ≤ n
    → Kept buffer n (move_down buffer q (n - q), n - q)
Kept-moved buffer n q h hq = record {
  sized = length-move_down buffer q (n - q) (omega arith);
  fewer = omega arith;
  latest =
      let same : n - (n - q) ≡ q = omega arith in
      rw same (take-move_down buffer q (n - q) (omega arith) ∙ sym (drop-take q n buffer));
}

-- Once nothing is kept, the later heads change nothing.
scan_heads-zero :
    (heads : HeadTails) (rx buffer : List ℕ) → scan_heads heads rx buffer 0 ≡ (buffer, 0)
unfolding scan_heads move_down
scan_heads-zero [] rx buffer = refl
scan_heads-zero ((head, tail) ∷ heads) rx buffer =
    ground (arith, scan_heads-zero heads rx buffer, find_bytes-none head rx 0)

-- The four ways in which the loop ends at the first head.
pub scan_heads_cases {ℓ} :
    (P : List ℕ × ℕ → Type ℓ) (head tail : List ℕ) (heads : HeadTails) (rx buffer : List ℕ) (n : ℕ)
    → (n < length head → P (buffer, n))
    → (find_bytes head rx ≡ none → P (buffer, 0))
    → (find_bytes head rx ≡ some 0 → P (buffer, n))
    → ((q : ℕ)
        → find_bytes head rx ≡ some (suc q)
        → P (move_down buffer (suc q) (n - suc q), n - suc q))
    → P (scan_heads ((head, tail) ∷ heads) rx buffer n)
unfolding scan_heads
scan_heads_cases P head tail heads rx buffer n few missing here moved =
    elim (Bool-cases (ltb n (length head))) [
      | inl e ↦ rw (e, scan_heads) (few (omega tests))
      | inr e ↦ rw (e, scan_heads) (search_cases (find_bytes head rx) refl)
    ]
  where
    search_cases :
        (found : Option ℕ)
        → find_bytes head rx ≡ found
        → P (elim found [
          | none ↦ scan_heads heads rx buffer 0
          | some zero ↦ (buffer, n)
          | some (suc q) ↦ (move_down buffer (suc q) (n - suc q), n - suc q)
        ])
    search_cases none e = rw (scan_heads-zero heads rx buffer) (missing e)
    search_cases (some zero) e = here e
    search_cases (some (suc q)) e = moved q e

pub scan_heads-Kept :
    (heads : HeadTails) (buffer : List ℕ) (n : ℕ)
    → n ≤ length buffer
    → Kept buffer n (scan_heads heads (take n buffer) buffer n)
unfolding scan_heads
scan_heads-Kept [] buffer n h = Kept-all buffer n
scan_heads-Kept ((head, tail) ∷ heads) buffer n h =
    scan_heads_cases (Kept buffer n) head tail heads (take n buffer) buffer n
      (λ _. Kept-all buffer n) (λ _. Kept-none buffer n h) (λ _. Kept-all buffer n)
      λ q e.
        Kept-moved buffer n (suc q) h
          (omega (arith, (find_bytes-some head (take n buffer) (suc q) e).1, length-take n buffer))

-- Either too few bytes are there for the first head, or they begin with it.
abbrev pub Framed : HeadTails → List ℕ × ℕ → Type 0
Framed [] out = Unit
Framed ((head, tail) ∷ heads) out =
    (out.1 < length head) ⊎ (starts_with head (take out.1 out.0) ≡ true)

pub scan_heads-Framed :
    (heads : HeadTails) (buffer : List ℕ) (n : ℕ)
    → n ≤ length buffer
    → Framed heads (scan_heads heads (take n buffer) buffer n)
unfolding scan_heads
scan_heads-Framed [] buffer n h = tt
scan_heads-Framed ((head, tail) ∷ heads) buffer n h =
    scan_heads_cases (Framed ((head, tail) ∷ heads)) head tail heads (take n buffer) buffer n inl
      (λ e. inl (find_bytes-none head (take n buffer) 0 e).1)
      (λ e. inr (find_bytes-some head (take n buffer) 0 e).0)
      λ q e.
        let (at, fits) = find_bytes-some head (take n buffer) (suc q) e in
        let kept = Kept-moved buffer n (suc q) h (omega (arith, length-take n buffer)) in
        let same : n - (n - suc q) ≡ suc q = omega (arith, length-take n buffer) in
        inr (rw (kept.latest, same) at)
