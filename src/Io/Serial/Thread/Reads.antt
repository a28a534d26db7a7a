-- ===== src/Io/Serial/Thread/Reads.antt =====
-- What one call of `Serial::read` returns, if whole frames arrive: a frame, or nothing at a timeout.
use robo_band.Base.{
  ℕ, zero, suc, ◌+◌, ◌≤◌, ◌<◌, ◌≡◌, ◌∙◌, ◌⊎◌, inl, inr, refl, sym, ap, Bool-cases, true, false,
  List, [], ◌∷◌, ◌++◌, arith, length, take, drop, ltb, take-append_le, length-drop, length-append,
  drop-append_le, drop-drop, take-append_length, drop-append_length, drop-length,
}
use mathlib.Core.Path.{subst}
use robo_band.Base.Int.{pos}
use robo_band.Io.Serial.{
  Serial, Event, failed, got, ready, timeout, Reading, round, take_chunk, Outcome, returned,
  read_loop,
}
use robo_band.Io.Serial.Bytes.{starts_with}
use robo_band.Io.Serial.Framing.{bytes}
use robo_band.Io.Serial.Thread.Chunks.{
  next_offset, next_offset-inside, next_offset-size, Steady, count_timeouts, Holding,
  take_chunk-Holding,
}

-- The chunk is a part of the frame, and the rest arrives later.
chunk-split :
    (chunk more front later : List ℕ)
    → length chunk ≤ length front
    → chunk ++ more ≡ front ++ later
    → (take (length chunk) front ≡ chunk) × (more ≡ drop (length chunk) front ++ later)
chunk-split chunk more front later fits e = (
  sym (take-append_le (length chunk) front later fits)
      ∙ (ap (take (length chunk)) (sym e) ∙ take-append_length chunk more),
  sym (drop-append_length chunk more)
      ∙ (ap (drop (length chunk)) e ∙ drop-append_le (length chunk) front later fits),
)

take-all : (n : ℕ) (xs : List ℕ) → length xs ≡ n → take n xs ≡ xs
take-all zero [] e = refl
take-all zero (x ∷ xs) e = absurd (omega arith)
take-all (suc n) [] e = absurd (omega arith)
take-all (suc n) (x ∷ xs) e = ap (◌∷◌ x) (take-all n xs (omega arith))

-- The frame is returned, and the later bytes are left.
pub record Whole (size : ℕ) (fr later : List ℕ) (es : List Event) (out : Outcome) : Type 0 where
  pub reading : Reading
  pub rest : List Event
  pub result : out ≡ returned (pos size) reading rest
  pub buffer : reading.buffer ≡ fr
  pub left : bytes rest ≡ later
  pub steady : Steady size 0 rest
  pub timeouts : count_timeouts rest ≡ count_timeouts es

-- Nothing is returned, and all bytes are left.
pub record Silence (size : ℕ) (all : List ℕ) (es : List Event) (out : Outcome) : Type 0 where
  pub reading : Reading
  pub rest : List Event
  pub result : out ≡ returned (pos 0) reading rest
  pub left : bytes rest ≡ all
  pub steady : Steady size 0 rest
  pub timeouts : count_timeouts es ≡ suc (count_timeouts rest)

read_loop-stops :
    (s : Serial) (es : List Event) (r : Reading)
    → ltb r.read_len s.buffer_size ≡ false
    → read_loop s es r ≡ returned (pos r.read_len) r es
unfolding read_loop
read_loop-stops s [] r full = rw (full, read_loop) refl
read_loop-stops s (e ∷ es) r full = rw (full, read_loop) refl

module _ (s : Serial) (head tail : List ℕ) (table : s.head_tails ≡ (head, tail) ∷ []) where
  module _ (fr later : List ℕ) (starts : starts_with head fr ≡ true)
      (size : length fr ≡ s.buffer_size) where
    abbrev Answers : ℕ → List Event → Outcome → Type 0
    Answers n es out =
        Whole s.buffer_size fr later es out ⊎ ((n ≡ 0) × Silence s.buffer_size (fr ++ later) es out)

    Answers-skip :
        {n m : ℕ} (es es' : List Event) {out : Outcome}
        → count_timeouts es ≡ count_timeouts es'
        → (n ≡ 0 → m ≡ 0)
        → Answers n es out
        → Answers m es' out
    Answers-skip es es' same none (inl w) = inl (record {
      reading = w.reading;
      rest = w.rest;
      result = w.result;
      buffer = w.buffer;
      left = w.left;
      steady = w.steady;
      timeouts = w.timeouts ∙ same;
    })
    Answers-skip es es' same none (inr (at, quiet)) = inr (
      none at,
      record {
        reading = quiet.reading;
        rest = quiet.rest;
        result = quiet.result;
        left = quiet.left;
        steady = quiet.steady;
        timeouts = sym same ∙ quiet.timeouts;
      },
    )

    Steady-inside :
        (n : ℕ)
        → n < s.buffer_size
        → (es : List Event) → Steady s.buffer_size n es
        → Steady s.buffer_size (next_offset s.buffer_size n) es
    Steady-inside n lt es steady =
        subst (λ k. Steady s.buffer_size k es) (sym (next_offset-inside s.buffer_size n lt)) steady

    -- The frame is there.
    read_loop-full :
        (n : ℕ) (es : List Event) (r : Reading)
        → ltb r.read_len s.buffer_size ≡ false
        → n ≤ s.buffer_size
        → Holding s head tail table fr n r
        → Steady s.buffer_size (next_offset s.buffer_size n) es
        → bytes es ≡ drop n fr ++ later
        → Answers n es (read_loop s es r)
    read_loop-full n es r full le v steady arrive =
        let at : n ≡ s.buffer_size = ground (arith, v.has_read) in
        let filled = subst (λ k. take k r.buffer ≡ take k fr) at v.filled in
        inl (record {
          reading = r;
          rest = es;
          result = read_loop-stops s es r full ∙ ap (λ k. returned (pos k) r es) (v.has_read ∙ at);
          buffer =
              sym (take-all s.buffer_size r.buffer v.sized)
              ∙ (filled ∙ take-all s.buffer_size fr size);
          left = arrive ∙ ap (λ front. front ++ later) (drop-length n fr (size ∙ sym at));
          steady =
              subst (λ k. Steady s.buffer_size k es)
                (ap (next_offset s.buffer_size) at ∙ next_offset-size s.buffer_size) steady;
          timeouts = refl;
        })

    -- One more answer, if the frame is not yet there.
    read_loop-more :
        (n : ℕ) (e : Event) (es : List Event) (r : Reading)
        → ltb r.read_len s.buffer_size ≡ true
        → n < s.buffer_size
        → Holding s head tail table fr n r
        → Steady s.buffer_size n (e ∷ es)
        → bytes (e ∷ es) ≡ drop n fr ++ later
        → ((m : ℕ) (r' : Reading)
            → m ≤ s.buffer_size
            → Holding s head tail table fr m r'
            → Steady s.buffer_size (next_offset s.buffer_size m) es
            → bytes es ≡ drop m fr ++ later
            → Answers m es (read_loop s es r'))
        → Answers n (e ∷ es) (read_loop s (e ∷ es) r)
    unfolding read_loop round
    read_loop-more n failed es r more lt v steady arrive next = absurd steady
    read_loop-more n ready es r more lt v steady arrive next =
        rw (more, read_loop)
          (Answers-skip es (ready ∷ es) refl (λ at. at)
            (next n r (omega arith) v (Steady-inside n lt es steady) arrive))
    read_loop-more n timeout es r more lt v (at, steady) arrive next =
        rw (more, read_loop)
          (inr (
            at,
            record {
              reading = r;
              rest = es;
              result = ap (λ k. returned (pos k) r es) (v.has_read ∙ at);
              left = arrive ∙ ap (λ k. drop k fr ++ later) at;
              steady = subst (λ k. Steady s.buffer_size k es) at steady;
              timeouts = refl;
            },
          ))
    read_loop-more n (got chunk) es r more lt v (some_bytes, fits, steady) arrive next =
        let (part, left) =
          chunk-split chunk (bytes es) (drop n fr) later (omega (arith, length-drop n fr, size))
            arrive in
        rw (more, read_loop)
          (Answers-skip es (got chunk ∷ es) refl (λ none. omega arith)
            (next (n + length chunk) (take_chunk s chunk r) fits
              (take_chunk-Holding s head tail table fr chunk n r starts size fits part v) steady
              (left ∙ ap (λ back. back ++ later) (drop-drop (length chunk) n fr))))

    pub read_loop-frame :
        (n : ℕ) (es : List Event) (r : Reading)
        → n ≤ s.buffer_size
        → Holding s head tail table fr n r
        → Steady s.buffer_size (next_offset s.buffer_size n) es
        → bytes es ≡ drop n fr ++ later
        → Answers n es (read_loop s es r)
    read_loop-frame n [] r le v steady arrive =
        let nothing : 0 ≡ length (drop n fr ++ later) = ap length arrive in
        let there : s.buffer_size ≤ n =
          omega (arith, nothing, length-append (drop n fr) later, length-drop n fr, size) in
        read_loop-full n [] r (ground (arith, v.has_read, there)) le v steady arrive
    read_loop-frame n (e ∷ es) r le v steady arrive =
        elim (Bool-cases (ltb r.read_len s.buffer_size)) [
          | inl more ↦
              let lt : n < s.buffer_size = ground (arith, v.has_read) in
              read_loop-more n e es r more lt v
                (subst (λ k. Steady s.buffer_size k (e ∷ es))
                  (next_offset-inside s.buffer_size n lt) steady)
                arrive
                (λ m r' le' v' steady' arrive'. read_loop-frame m es r' le' v' steady' arrive')
          | inr full ↦ read_loop-full n (e ∷ es) r full le v steady arrive
        ]

-- While no bytes arrive, `read` returns after the next timeout.
pub read_loop-silent :
    (s : Serial) (es : List Event) (r : Reading) (k : ℕ)
    → 0 < s.buffer_size
    → r.read_len ≡ 0
    → Steady s.buffer_size 0 es
    → bytes es ≡ []
    → count_timeouts es ≡ suc k
    → Silence s.buffer_size [] es (read_loop s es r)
unfolding read_loop round
read_loop-silent s [] r k positive start steady quiet some_left = absurd (omega arith)
read_loop-silent s (failed ∷ es) r k positive start steady quiet some_left = absurd steady
read_loop-silent s (ready ∷ es) r k positive start steady quiet some_left =
    let more : ltb r.read_len s.buffer_size ≡ true = ground arith in
    let later = read_loop-silent s es r k positive start steady quiet some_left in
    rw (more, read_loop)
      (record {
        reading = later.reading;
        rest = later.rest;
        result = later.result;
        left = later.left;
        steady = later.steady;
        timeouts = later.timeouts;
      })
read_loop-silent s (timeout ∷ es) r k positive start (at, steady) quiet some_left =
    let more : ltb r.read_len s.buffer_size ≡ true = ground arith in
    rw (more, read_loop)
      (record {
        reading = r;
        rest = es;
        result = ap (λ k. returned (pos k) r es) start;
        left = quiet;
        steady = steady;
        timeouts = refl;
      })
read_loop-silent s (got chunk ∷ es) r k positive start (some_bytes, fits, steady) quiet some_left =
    let nothing : length (chunk ++ bytes es) ≡ 0 = ap length quiet in
    absurd (omega (arith, length-append chunk (bytes es)))
