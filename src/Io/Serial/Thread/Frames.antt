-- ===== src/Io/Serial/Thread/Frames.antt =====
-- What a serial port hands to its devices, if whole frames arrive.
use mathlib.Core.Path.{subst}
use robo_band.Base.{
  ℕ, zero, suc, ◌+◌, ◌<◌, ◌≡◌, ◌∙◌, refl, ap, sym, inl, inr, true, List, [], ◌∷◌, ◌++◌, map, arith,
  length, All, replicate, length-replicate,
}
use robo_band.Base.Int.{pos}
use robo_band.Io.NoKey.{Unpacker, Read, Served, serve, thread_func}
use robo_band.Io.NoKey.Offers.{thread_func-buffer}
use robo_band.Io.Serial.{Serial, Event, read, start_reading}
use robo_band.Io.Serial.Bytes.{starts_with}
use robo_band.Io.Serial.Framing.{bytes}
use robo_band.Io.Serial.Thread.{serial_thread}
use robo_band.Io.Serial.Thread.Chunks.{Steady, count_timeouts, Holding, next_offset-inside}
use robo_band.Io.Serial.Thread.Reads.{Whole, Silence, read_loop-frame, read_loop-silent}

abbrev pub flatten : List (List ℕ) → List ℕ
flatten [] = []
flatten (fr ∷ frs) = fr ++ flatten frs

-- A read that returns a whole frame at once.
abbrev pub whole_read : ℕ → List ℕ → Read
whole_read size fr = λ _. (pos size, fr)

-- A frame fills the buffer and begins with the head.
abbrev pub IsFrame : Serial → List ℕ → List ℕ → Type 0
IsFrame s head fr = (length fr ≡ s.buffer_size) × (starts_with head fr ≡ true)

-- The unpackers' state and the warnings; the buffer is left out.
abbrev pub seen {ℓ} : {W : Type ℓ} → Served W → W × ℕ
seen v = (v.world, v.warnings)

module _ (s : Serial) (head tail : List ℕ) (table : s.head_tails ≡ (head, tail) ∷ []) where
  start-Holding :
      (fr : List ℕ) → Holding s head tail table fr 0 (start_reading (replicate s.buffer_size 0))
  start-Holding fr = record {
    sized = length-replicate s.buffer_size 0;
    has_read = refl;
    filled = refl;
  }

  module _ {ℓ} {W : Type ℓ} (unpackers : List (Unpacker W)) where
    -- The buffer that is left from before does not matter.
    seen-buffer :
        (frames : List (List ℕ)) (served : Served W) (buffer : List ℕ)
        → seen (
            thread_func s.buffer_size unpackers
              (map (whole_read s.buffer_size) frames)
              (record served { buffer = buffer }))
          ≡ seen
              (thread_func s.buffer_size unpackers (map (whole_read s.buffer_size) frames) served)
    seen-buffer frames served buffer =
        let (world, warnings) =
          thread_func-buffer s.buffer_size unpackers (map (whole_read s.buffer_size) frames) served
            buffer in
        λ i. (sym world i, sym warnings i)

    -- A round in which `read` returns nothing.
    Silence-round :
        (k : ℕ) (all : List ℕ) (es : List Event) (served : Served W)
        → (q : Silence s.buffer_size all es (read s es (replicate s.buffer_size 0)))
        → serial_thread s unpackers (suc k) es served
          ≡ serial_thread s unpackers k q.rest (record served { buffer = q.reading.buffer })
    unfolding serial_thread serve
    Silence-round k all es served q = rw (q.result, serial_thread) refl

    -- A round in which `read` returns a frame.
    Whole-round :
        (k : ℕ) (fr later : List ℕ) (es : List Event) (served : Served W)
        → (w : Whole s.buffer_size fr later es (read s es (replicate s.buffer_size 0)))
        → serial_thread s unpackers (suc k) es served
          ≡ serial_thread s unpackers k w.rest
              (serve s.buffer_size unpackers (whole_read s.buffer_size fr) served)
    unfolding serial_thread
    Whole-round k fr later es served w =
        rw (w.result, serial_thread)
          (ap
            (λ buffer.
              serial_thread s unpackers k w.rest
                (serve s.buffer_size unpackers (whole_read s.buffer_size buffer) served))
            w.buffer)

    serial_thread-frames_by :
        (rounds : ℕ) (frames : List (List ℕ)) (es : List Event) (served : Served W)
        → rounds ≡ length frames + count_timeouts es
        → 0 < s.buffer_size
        → All (IsFrame s head) frames
        → bytes es ≡ flatten frames
        → Steady s.buffer_size 0 es
        → seen (serial_thread s unpackers rounds es served)
          ≡ seen
              (thread_func s.buffer_size unpackers (map (whole_read s.buffer_size) frames) served)
    unfolding serial_thread thread_func read
    serial_thread-frames_by zero [] es served e positive all arrive steady = refl
    serial_thread-frames_by zero (fr ∷ frames) es served e positive all arrive steady =
        absurd (omega arith)
    serial_thread-frames_by (suc k) [] es served e positive all arrive steady =
        let q =
          read_loop-silent s es (start_reading (replicate s.buffer_size 0)) k positive refl steady
            arrive (omega arith) in
        ap seen (Silence-round k [] es served q)
        ∙ serial_thread-frames_by k [] q.rest (record served { buffer = q.reading.buffer })
            (omega (arith, q.timeouts)) positive tt q.left q.steady
    serial_thread-frames_by (suc k) (fr ∷ frames) es served e positive ((size, starts), all) arrive
          steady =
        elim (read_loop-frame s head tail table fr (flatten frames) starts size 0 es
          (start_reading (replicate s.buffer_size 0)) (omega arith) (start-Holding fr)
          (subst (λ n. Steady s.buffer_size n es)
            (sym (next_offset-inside s.buffer_size 0 positive)) steady)
          arrive) [
            | inl w ↦
                ap seen (Whole-round k fr (flatten frames) es served w)
                ∙ serial_thread-frames_by k frames w.rest
                    (serve s.buffer_size unpackers (whole_read s.buffer_size fr) served)
                    (omega (arith, w.timeouts)) positive all w.left w.steady
            | inr (_, q) ↦
                ap seen (Silence-round k (fr ++ flatten frames) es served q)
                ∙ (serial_thread-frames_by k (fr ∷ frames) q.rest
                      (record served { buffer = q.reading.buffer }) (omega (arith, q.timeouts))
                      positive ((size, starts), all) q.left q.steady
                    ∙ seen-buffer (fr ∷ frames) served q.reading.buffer)
          ]

    -- If frames arrive that fill the buffer and begin with the only head in the table, in whatever
    -- chunks, where the kernel gives no more than it is asked for and is silent only between frames:
    -- one round of the thread for each frame and for each timeout has the effect on the unpackers'
    -- state, and logs the warnings, of reading each frame whole, one after another.
    pub serial_thread-frames :
        (frames : List (List ℕ)) (es : List Event) (served : Served W)
        → 0 < s.buffer_size
        → All (IsFrame s head) frames
        → bytes es ≡ flatten frames
        → Steady s.buffer_size 0 es
        → let after = serial_thread s unpackers (length frames + count_timeouts es) es served in
          let whole =
            thread_func s.buffer_size unpackers (map (whole_read s.buffer_size) frames) served in
          (after.world ≡ whole.world) × (after.warnings ≡ whole.warnings)
    serial_thread-frames frames es served positive all arrive steady =
        let same =
          serial_thread-frames_by (length frames + count_timeouts es) frames es served refl positive
            all arrive steady in
        (ap (λ v. v.0) same, ap (λ v. v.1) same)
