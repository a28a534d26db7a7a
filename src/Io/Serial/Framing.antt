-- ===== src/Io/Serial/Framing.antt =====
-- What `Serial::read` leaves in the buffer, for any sequence of answers of the kernel.
use mathlib.Core.List.{append-nil, append_assoc}
use robo_band.Base.{
  ℕ, ◌+◌, ◌-◌, ◌≤◌, ◌<◌, ◌≡◌, ◌∙◌, ◌⊎◌, refl, sym, ap, List, [], ◌∷◌, ◌++◌, arith, All, length,
  drop, take, Bool-cases, inl, inr, ltb, length-take, length-drop, length-append, take-append_add,
  last, last-append, drop-last,
}
use robo_band.Base.Int.{ℤ, pos, negsuc}
use robo_band.Io.Serial.{
  HeadTails, Serial, Event, failed, got, ready, timeout, Reading, write_at, go_on, return, round,
  take_chunk, Outcome, waiting, returned, read_loop, read, start_reading,
}
use robo_band.Io.Serial.Bytes.{starts_with}
use robo_band.Io.Serial.Heads.{Framed, scan_heads-Kept, scan_heads-Framed}

-- The bytes that arrive with some events.
abbrev pub bytes : List Event → List ℕ
bytes [] = []
bytes (got chunk ∷ es) = chunk ++ bytes es
bytes (_ ∷ es) = bytes es

-- `read` never gives more bytes than it was asked for.
abbrev pub Obeys : Serial → List Event → Reading → Type 0
Obeys s [] r = Unit
Obeys s (got chunk ∷ es) r =
    (r.read_len + length chunk ≤ s.buffer_size) × Obeys s es (take_chunk s chunk r)
Obeys s (_ ∷ es) r = Obeys s es r

-- The buffer holds the latest bytes received, and they are in frame.
pub record Holds (s : Serial) (received : List ℕ) (r : Reading) : Type 0 where
  pub sized : length r.buffer ≡ s.buffer_size
  pub fits : r.read_len ≤ s.buffer_size
  pub enough : r.read_len ≤ length received
  pub latest : take r.read_len r.buffer ≡ last r.read_len received
  pub framed : Framed s.head_tails (r.buffer, r.read_len)

pub length-write_at :
    (buffer : List ℕ) (n : ℕ) (chunk : List ℕ)
    → n + length chunk ≤ length buffer
    → length (write_at buffer n chunk) ≡ length buffer
unfolding write_at
length-write_at buffer n chunk h = omega (
  arith,
  length-append (take n buffer) (chunk ++ drop (n + length chunk) buffer),
  length-append chunk (drop (n + length chunk) buffer),
  length-take n buffer,
  length-drop (n + length chunk) buffer,
)

pub take-write_at :
    (buffer : List ℕ) (n : ℕ) (chunk : List ℕ)
    → n ≤ length buffer
    → take (n + length chunk) (write_at buffer n chunk) ≡ take n buffer ++ chunk
unfolding write_at
take-write_at buffer n chunk h =
    take-append_add n (take n buffer) chunk _ (omega (arith, length-take n buffer))

-- A chunk that fits keeps the invariant, with the chunk received.
take_chunk-Holds :
    (s : Serial) (received chunk : List ℕ) (r : Reading)
    → Holds s received r
    → r.read_len + length chunk ≤ s.buffer_size
    → Holds s (received ++ chunk) (take_chunk s chunk r)
unfolding take_chunk
take_chunk-Holds s received chunk r v h =
    let written = write_at r.buffer r.read_len chunk in
    let new_len = r.read_len + length chunk in
    let size : length written ≡ length r.buffer =
      length-write_at r.buffer r.read_len chunk (omega (arith, v.sized)) in
    let small : new_len ≤ length written = omega (arith, v.sized) in
    let kept = scan_heads-Kept s.head_tails written new_len small in
    let enough : new_len ≤ length (received ++ chunk) =
      omega (arith, length-append received chunk, v.enough) in
    let newest : take new_len written ≡ last new_len (received ++ chunk) =
      take-write_at r.buffer r.read_len chunk (omega (arith, v.sized, v.fits))
      ∙ ap (λ front. front ++ chunk) v.latest
      ∙ sym (last-append r.read_len received chunk v.enough) in
    record {
      sized = kept.sized ∙ size ∙ v.sized;
      fits = omega (arith, kept.fewer);
      enough = omega (arith, kept.fewer);
      latest =
          kept.latest
          ∙ ap (drop (new_len - _)) newest
          ∙ drop-last _ new_len (received ++ chunk) kept.fewer enough;
      framed = scan_heads-Framed s.head_tails written new_len small;
    }

-- An answer after which the loop goes on.
abbrev pub GoesOn : Event → Type 0
GoesOn (got chunk) = Unit
GoesOn ready = Unit
GoesOn failed = ⊥
GoesOn timeout = ⊥

-- The result, and the answer that ended the loop: a failed read, a timeout, or none if the buffer is full.
abbrev pub EndsBy : Serial → List Event → ℤ → Reading → Type 0
EndsBy s last n r =
    ((last ≡ failed ∷ []) × (n ≡ negsuc 0))
    ⊎ ((last ≡ timeout ∷ []) × (n ≡ pos r.read_len))
    ⊎ ((last ≡ []) × (s.buffer_size ≤ r.read_len) × (n ≡ pos r.read_len))

-- What the loop returns, from what was received before.
abbrev pub IsRight : Serial → List ℕ → List Event → Outcome → Type 0
IsRight s received es (waiting r) =
    All GoesOn es × Holds s (received ++ bytes es) r × (r.read_len < s.buffer_size)
IsRight s received es (returned n r rest) =
    (front last : List Event) × (es ≡ front ++ (last ++ rest))
    × All GoesOn front
    × Holds s (received ++ bytes front) r
    × EndsBy s last n r

bytes-cons : (e : Event) (es : List Event) → bytes (e ∷ es) ≡ bytes (e ∷ []) ++ bytes es
bytes-cons failed es = refl
bytes-cons (got chunk) es = rw append-nil
bytes-cons ready es = refl
bytes-cons timeout es = refl

IsRight-cons :
    (s : Serial) (received : List ℕ) (e : Event) (es : List Event) (out : Outcome)
    → GoesOn e
    → IsRight s (received ++ bytes (e ∷ [])) es out
    → IsRight s received (e ∷ es) out
IsRight-cons s received e es (waiting r) on (all, holds, room) = (
  (on, all),
  rw (bytes-cons e es, ← append_assoc received (bytes (e ∷ [])) (bytes es)) holds,
  room,
)
IsRight-cons s received e es (returned n r rest) on (front, last, split, all, holds, ends) = (
  e ∷ front,
  last,
  ap (◌∷◌ e) split,
  (on, all),
  rw (bytes-cons e front, ← append_assoc received (bytes (e ∷ [])) (bytes front)) holds,
  ends,
)

-- The loop returns at once.
IsRight-returned :
    (s : Serial) (received : List ℕ) (last es : List Event) (r : Reading) (n : ℤ)
    → Holds s received r
    → EndsBy s last n r
    → IsRight s received (last ++ es) (returned n r es)
IsRight-returned s received last es r n v ends =
    ([], last, refl, tt, rw (append-nil received) v, ends)

read_loop-IsRight :
    (s : Serial) (received : List ℕ) (es : List Event) (r : Reading)
    → Holds s received r
    → Obeys s es r
    → IsRight s received es (read_loop s es r)
unfolding read_loop round
read_loop-IsRight s received [] r v o = elim (Bool-cases (ltb r.read_len s.buffer_size)) [
  | inl more ↦ rw (more, read_loop) (tt, rw (append-nil received) v, ground arith)
  | inr full ↦
      rw (full, read_loop)
        (IsRight-returned s received [] [] r _ v (inr (inr (refl, ground arith, refl))))
]
read_loop-IsRight s received (e ∷ es) r v o = elim (Bool-cases (ltb r.read_len s.buffer_size)) [
  | inl more ↦ rw (more, read_loop) (go (λ seen r'. read_loop-IsRight s seen es r') e o)
  | inr full ↦
      rw (full, read_loop)
        (IsRight-returned s received [] (e ∷ es) r _ v (inr (inr (refl, ground arith, refl))))
]
  where
    go :
        ((seen : List ℕ) (r' : Reading)
          → Holds s seen r'
          → Obeys s es r'
          → IsRight s seen es (read_loop s es r'))
        → (e : Event) → Obeys s (e ∷ es) r
        → IsRight s received
            (e ∷ es)
            (elim (round s e r) [ return n r' ↦ returned n r' es | go_on r' ↦ read_loop s es r' ])
    go later failed o = IsRight-returned s received (failed ∷ []) es r _ v (inl (refl, refl))
    go later timeout o =
        IsRight-returned s received (timeout ∷ []) es r _ v (inr (inl (refl, refl)))
    go later ready o =
        IsRight-cons s received ready es _ tt
          (later (received ++ []) r (rw (append-nil received) v) o)
    go later (got chunk) (h, o) = IsRight-cons s received (got chunk) es _ tt (
        later (received ++ (chunk ++ [])) (take_chunk s chunk r)
          (rw (append-nil chunk) (take_chunk-Holds s received chunk r v h)) o)

Framed-start : (heads : HeadTails) (target : List ℕ) → Framed heads (target, 0)
unfolding starts_with
Framed-start [] target = tt
Framed-start (([], tail) ∷ heads) target = inr refl
Framed-start ((b ∷ head, tail) ∷ heads) target = inl (omega arith)

-- Given a buffer of `buffer_size` bytes and a kernel that never reads more than it is asked for,
-- whenever `read` returns or waits, the buffer keeps its size, `read_len` stays within it, its first
-- `read_len` bytes are the last ones received, and they begin with the first head in the table or are
-- too few for it. While it waits, there is room, and no read failed and no time ran out. If it returns, the
-- result is -1 if the last answer was a failed read, and `read_len` if that was a timeout or the buffer is
-- full.
pub read-IsRight :
    (s : Serial) (es : List Event) (target : List ℕ)
    → length target ≡ s.buffer_size
    → Obeys s es (start_reading target)
    → IsRight s [] es (read s es target)
unfolding read
read-IsRight s es target size o =
    read_loop-IsRight s [] es (start_reading target)
      (record {
        sized = size;
        fits = omega arith;
        enough = omega arith;
        latest = refl;
        framed = Framed-start s.head_tails target;
      })
      o
