-- ===== src/Io/Serial/Return.antt =====
-- That `Serial::read` returns, and what it drops.
use robo_band.Base.{
  ℕ, ◌+◌, ◌≤◌, ◌≡◌, refl, none, List, [], ◌∷◌, ◌++◌, arith, length, take, Bool-cases, inl, inr, ltb,
}
use robo_band.Base.Int.{ℤ, pos, negsuc}
use robo_band.Io.Serial.Bytes.{find_bytes}
use robo_band.Io.Serial.Heads.{scan_heads_cases}
use robo_band.Io.Serial.{
  HeadTails, Serial, Event, failed, got, ready, timeout, Reading, write_at, go_on, return, round,
  take_chunk, Outcome, returned, read_loop, read, start_reading,
}

abbrev pub Returns : Outcome → Type 0
Returns out = (n : ℤ) × (r : Reading) × (rest : List Event) × (out ≡ returned n r rest)

read_loop-Returns :
    (s : Serial) (es later : List Event) (r : Reading)
    → Returns (read_loop s (es ++ (timeout ∷ later)) r)
unfolding read_loop round
read_loop-Returns s [] later r = elim (Bool-cases (ltb r.read_len s.buffer_size)) [
  | inl more ↦ (pos r.read_len, r, later, rw (more, read_loop))
  | inr full ↦ (pos r.read_len, r, timeout ∷ later, rw (full, read_loop))
]
read_loop-Returns s (e ∷ es) later r = elim (Bool-cases (ltb r.read_len s.buffer_size)) [
  | inl more ↦ rw (more, read_loop) (go e (read_loop-Returns s es later))
  | inr full ↦ (pos r.read_len, r, e ∷ (es ++ (timeout ∷ later)), rw (full, read_loop))
]
  where
    go :
        (e : Event)
        → ((r' : Reading) → Returns (read_loop s (es ++ (timeout ∷ later)) r'))
        → Returns (elim (round s e r) [
          | return n r' ↦ returned n r' (es ++ (timeout ∷ later))
          | go_on r' ↦ read_loop s (es ++ (timeout ∷ later)) r'
        ])
    go failed next = (negsuc 0, r, es ++ (timeout ∷ later), refl)
    go timeout next = (pos r.read_len, r, es ++ (timeout ∷ later), refl)
    go ready next = next r
    go (got chunk) next = next (take_chunk s chunk r)

-- `read` returns at the latest when `ppoll` reports no input, whatever happened before.
pub read-Returns :
    (s : Serial) (es later : List Event) (target : List ℕ)
    → Returns (read s (es ++ (timeout ∷ later)) target)
unfolding read
read-Returns s es later target = read_loop-Returns s es later (start_reading target)

-- Bytes in which the first head of the table does not occur are all dropped as soon as they are as many
-- as the head: also if they begin with another head of the table, or end in the first bytes of the
-- first one.
pub take_chunk_drops :
    (s : Serial) (head tail : List ℕ) (heads : HeadTails) (chunk : List ℕ) (r : Reading)
    → s.head_tails ≡ (head, tail) ∷ heads
    → let n = r.read_len + length chunk in
      length head ≤ n
      → find_bytes head (take n (write_at r.buffer r.read_len chunk)) ≡ none
      → (take_chunk s chunk r).read_len ≡ 0
unfolding take_chunk
take_chunk_drops s head tail heads chunk r table enough missing =
    let written = write_at r.buffer r.read_len chunk in
    let n = r.read_len + length chunk in
    rw table (
      scan_heads_cases (λ out. out.1 ≡ 0) head tail heads (take n written) written n
        (λ few. absurd (omega arith)) (λ _. refl) (λ here. cc) (λ q moved. cc))
