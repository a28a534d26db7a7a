-- ===== src/Io/Serial.antt =====
-- `class Serial` of src/io/serial.hpp and src/io/serial.cc: the table of frame heads and the
-- reading loop. Bytes are numbers, an `int` length is a number that is not negative, and
-- what the kernel answers to `read` and `ppoll` is a sequence of events. Opening and setting up the
-- terminal is in Open.
pub mod Bytes
pub mod Search
pub mod Heads
pub mod Framing
pub mod Return
pub mod Send
pub mod Open
pub mod Thread
pub mod Examples
use robo_band.Base.{
  ℕ, zero, suc, ◌+◌, ◌-◌, Bool, true, false, Option, none, some, List, [], ◌∷◌, ◌++◌, if◌then◌else◌,
  ltb, leb, length, take, drop,
}
use robo_band.Base.Int.{ℤ, pos, negsuc, ◌*ℤ◌, ◌/ℤ◌, ltb_ℤ, eqb_ℤ}
use robo_band.Util.Time.{Timespec, ns, us, sec, inc_time}
use Bytes.{find_bytes, insert_or_assign}

abbrev pub HeadTails : Type 0
HeadTails = List (List ℕ × List ℕ)

pub record Serial : Type 0 where
  pub buffer_size : ℕ
  pub head_tails : HeadTails
  pub timeout_inline : Timespec
  pub timeout_wait : Timespec

-- What the constructor puts into the members, from the two timeouts in microseconds.
unfoldable pub new_serial : ℕ → ℤ → ℤ → Serial
unfolding inc_time
new_serial buffer_size timeout_inline_us timeout_wait_us =
    let start : Timespec = record { tv_sec = pos 0; tv_nsec = pos 0 } in
    record {
      buffer_size = buffer_size;
      head_tails = [];
      timeout_inline = inc_time start (timeout_inline_us *ℤ us ns);
      timeout_wait = inc_time start (timeout_wait_us *ℤ us ns);
    }

unfoldable pub add_rx_head_tail : Serial → List ℕ → List ℕ → Serial
add_rx_head_tail s head tail = record s { head_tails = insert_or_assign head tail s.head_tails }

-- How the kernel answers one round of the loop: `read` fails, it gives bytes, or it gives none and
-- `ppoll` then reports input or not.
pub data Event : Type 0 where
  failed : Event
  got : List ℕ → Event
  ready : Event
  timeout : Event

-- The buffer, `read_len` and `got_data`.
pub record Reading : Type 0 where
  pub buffer : List ℕ
  pub read_len : ℕ
  pub got_data : Bool

-- The kernel writes a chunk behind the bytes read so far.
unfoldable pub write_at : List ℕ → ℕ → List ℕ → List ℕ
write_at buffer at chunk = take at buffer ++ (chunk ++ drop (at + length chunk) buffer)

-- `memmove(data, data + start, n)`.
unfoldable pub move_down : List ℕ → ℕ → ℕ → List ℕ
move_down buffer start n = take n (drop start buffer) ++ drop n buffer

-- The loop over `head_tails`, with the bytes that were there before it in `rx`.
unfoldable pub scan_heads : HeadTails → List ℕ → List ℕ → ℕ → List ℕ × ℕ
scan_heads [] rx buffer read_len = (buffer, read_len)
scan_heads ((head, tail) ∷ rest) rx buffer read_len = elim (ltb read_len (length head)) [
  | true ↦ (buffer, read_len)
  | false ↦ elim (find_bytes head rx) [
    | none ↦ scan_heads rest rx buffer 0
    | some zero ↦ (buffer, read_len)
    | some (suc n) ↦ (move_down buffer (suc n) (read_len - suc n), read_len - suc n)
  ]
]

-- The branch of the loop's body for a chunk of bytes.
unfoldable pub take_chunk : Serial → List ℕ → Reading → Reading
take_chunk s chunk r =
    let written = write_at r.buffer r.read_len chunk in
    let new_len = r.read_len + length chunk in
    let scanned = scan_heads s.head_tails (take new_len written) written new_len in
    record { buffer = scanned.0; read_len = scanned.1; got_data = true }

pub data Round : Type 0 where
  go_on : Reading → Round
  return : ℤ → Reading → Round

-- The body of the `while`.
unfoldable pub round : Serial → Event → Reading → Round
round s failed r = return (negsuc 0) r
round s timeout r = return (pos r.read_len) r
round s ready r = go_on r
round s (got chunk) r = go_on (take_chunk s chunk r)

-- The events ran out while the loop waits for the kernel, or `read` returns a length, and the later
-- events are left.
pub data Outcome : Type 0 where
  waiting : Reading → Outcome
  returned : ℤ → Reading → List Event → Outcome

unfoldable pub read_loop : Serial → List Event → Reading → Outcome
read_loop s [] r =
    if ltb r.read_len s.buffer_size then waiting r else returned (pos r.read_len) r []
read_loop s (e ∷ es) r = elim (ltb r.read_len s.buffer_size) [
  | false ↦ returned (pos r.read_len) r (e ∷ es)
  | true ↦ elim (round s e r) [ return n r' ↦ returned n r' es | go_on r' ↦ read_loop s es r' ]
]

abbrev pub start_reading : List ℕ → Reading
start_reading target = record { buffer = target; read_len = 0; got_data = false }

-- `Serial::read` into a buffer.
unfoldable pub read : Serial → List Event → List ℕ → Outcome
unfolding read_loop
read s es target = read_loop s es (start_reading target)
