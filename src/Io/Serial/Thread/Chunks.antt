-- ===== src/Io/Serial/Thread/Chunks.antt =====
-- `Serial::read` puts a frame together from the chunks in which it arrives.
use robo_band.Base.{
  ℕ, zero, suc, ◌+◌, ◌≤◌, ◌<◌, ◌≡◌, ◌∙◌, inl, inr, refl, sym, ap, Bool-cases, true, some, List, [],
  ◌∷◌, ◌++◌, arith, length, take, drop, ltb, if◌then◌else◌, ◌==◌, take-nil,
}
use native.Mathlib.Nat.{zero-add}
use robo_band.Io.Serial.{
  Serial, Event, failed, got, ready, timeout, Reading, write_at, scan_heads, take_chunk,
}
use robo_band.Io.Serial.Bytes.{starts_with, find_bytes}
use robo_band.Io.Serial.Framing.{length-write_at, take-write_at}

-- How far into the next frame, once n bytes of one are there.
abbrev pub next_offset : ℕ → ℕ → ℕ
next_offset size n = if n == size then 0 else n

pub next_offset-inside : (size n : ℕ) → n < size → next_offset size n ≡ n
next_offset-inside size n h = ground arith

pub next_offset-size : (size : ℕ) → next_offset size size ≡ 0
next_offset-size size = ground arith

-- The kernel never gives more than it is asked for, n bytes into a frame, and the port falls silent only
-- between frames; `read` does not fail.
abbrev pub Steady : ℕ → ℕ → List Event → Type 0
Steady size n [] = Unit
Steady size n (failed ∷ es) = ⊥
Steady size n (ready ∷ es) = Steady size n es
Steady size n (timeout ∷ es) = (n ≡ 0) × Steady size n es
Steady size n (got chunk ∷ es) =
    (0 < length chunk)
    × (n + length chunk ≤ size)
    × Steady size (next_offset size (n + length chunk)) es

abbrev pub count_timeouts : List Event → ℕ
count_timeouts [] = 0
count_timeouts (timeout ∷ es) = suc (count_timeouts es)
count_timeouts (_ ∷ es) = count_timeouts es

starts_with-take :
    (head text : List ℕ) (n : ℕ)
    → length head ≤ n
    → starts_with head text ≡ true
    → starts_with head (take n text) ≡ true
unfolding starts_with
starts_with-take [] text n h e = refl
starts_with-take (b ∷ head) [] n h e = absurd (ground arith)
starts_with-take (b ∷ head) (c ∷ text) zero h e = absurd (omega arith)
starts_with-take (b ∷ head) (c ∷ text) (suc n) h e =
    ground (arith, starts_with-take head text n (omega arith))

find_bytes-first :
    (head text : List ℕ) → starts_with head text ≡ true → find_bytes head text ≡ some 0
unfolding find_bytes
find_bytes-first head [] e = rw (e, find_bytes) refl
find_bytes-first head (c ∷ text) e = rw (e, find_bytes) refl

take-add-drop : (n m : ℕ) (xs : List ℕ) → take n xs ++ take m (drop n xs) ≡ take (n + m) xs
take-add-drop zero m xs = rw zero-add
take-add-drop (suc n) m [] = take-nil m ∙ sym (take-nil (suc n + m))
take-add-drop (suc n) m (x ∷ xs) =
    let same : suc n + m ≡ suc (n + m) = omega arith in rw same (ap (◌∷◌ x) (take-add-drop n m xs))

module _ (s : Serial) (head tail : List ℕ) (table : s.head_tails ≡ (head, tail) ∷ []) where
  -- The first n bytes of a frame are in the buffer.
  pub record Holding (fr : List ℕ) (n : ℕ) (r : Reading) : Type 0 where
    pub sized : length r.buffer ≡ s.buffer_size
    pub has_read : r.read_len ≡ n
    pub filled : take n r.buffer ≡ take n fr

  -- The head is found where it stands, or is not looked for yet.
  scan_heads-frame :
      (fr buffer : List ℕ) (n : ℕ)
      → starts_with head fr ≡ true
      → scan_heads s.head_tails (take n fr) buffer n ≡ (buffer, n)
  unfolding scan_heads
  scan_heads-frame fr buffer n starts = elim (Bool-cases (ltb n (length head))) [
    | inl few ↦ rw (table, few, scan_heads) refl
    | inr enough ↦
        let long : length head ≤ n = ground arith in
        let found = find_bytes-first head (take n fr) (starts_with-take head fr n long starts) in
        rw (table, enough, found, scan_heads) refl
  ]

  pub take_chunk-Holding :
      (fr chunk : List ℕ) (n : ℕ) (r : Reading)
      → starts_with head fr ≡ true
      → length fr ≡ s.buffer_size
      → n + length chunk ≤ s.buffer_size
      → take (length chunk) (drop n fr) ≡ chunk
      → Holding fr n r
      → Holding fr (n + length chunk) (take_chunk s chunk r)
  unfolding take_chunk
  take_chunk-Holding fr chunk n r starts size fits part v =
      let written = write_at r.buffer r.read_len chunk in
      let m = n + length chunk in
      let len : r.read_len + length chunk ≡ m = omega (arith, v.has_read) in
      let same_size : length written ≡ length r.buffer =
        length-write_at r.buffer r.read_len chunk (omega (arith, v.sized, v.has_read)) in
      let seen : take m written ≡ take m fr =
        ap (λ k. take m (write_at r.buffer k chunk)) v.has_read
        ∙ take-write_at r.buffer n chunk (omega (arith, v.sized))
        ∙ ap (λ front. front ++ chunk) v.filled
        ∙ ap (λ c. take n fr ++ c) (sym part)
        ∙ take-add-drop n (length chunk) fr in
      let scanned : scan_heads s.head_tails (take (r.read_len + length chunk) written) written
            (r.read_len + length chunk)
          ≡ (written, m) =
        ap (λ k. scan_heads s.head_tails (take k written) written k) len
        ∙ ap (λ rx. scan_heads s.head_tails rx written m) seen
        ∙ scan_heads-frame fr written m starts in
      record {
        sized = ap (λ out. length out.0) scanned ∙ same_size ∙ v.sized;
        has_read = ap (λ out. out.1) scanned;
        filled = ap (λ out. take m out.0) scanned ∙ seen;
      }
