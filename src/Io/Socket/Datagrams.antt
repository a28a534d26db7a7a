-- ===== src/Io/Socket/Datagrams.antt =====
-- Where a datagram goes, and what it overwrites.
use Prim.Native.Nat.{min}
use robo_band.Base.{
  ℕ, zero, suc, ◌<◌, ◌≡◌, ◌∙◌, ap, sym, List, [], ◌∷◌, ◌++◌, length, drop, get_elem?,
  get_elem?-take, arith, drop-nil, length-take, Bool-cases, inl, inr, ltb→lt, if◌then◌else◌, ltb,
  Bool-cases, inl, inr, ltb→lt,
}
use robo_band.Base.Int.{ℤ, pos}
use robo_band.Io.Socket.{
  Key, SockAddr, af_inet, swap_bytes, to_uint16, datagram, received_bytes, read, send,
}

swap_bytes-swap_bytes : (n : ℕ) → n < 65536 → swap_bytes (swap_bytes n) ≡ n
unfolding swap_bytes
swap_bytes-swap_bytes n h = omega arith

swap_bytes_fits : (n : ℕ) → swap_bytes n < 65536
unfolding swap_bytes
swap_bytes_fits n = omega arith

-- A message that is sent to the key that `read` gives for a datagram goes to the address and the
-- port that the datagram came from, if the datagram is not empty and came over IPv4 from a port of
-- sixteen bits.
pub send-read :
    (first : ℕ) (bytes : List ℕ) (from : SockAddr) (key : Key) (memory : List ℕ) (n : ℤ)
    → from.sin_family ≡ af_inet
    → from.sin_port < 65536
    → (send (read (datagram (first ∷ bytes) from) key memory).key n).0 ≡ from
unfolding send read to_uint16
send-read first bytes from key memory n family fits =
    let there = swap_bytes-swap_bytes from.sin_port fits in
    let small = swap_bytes_fits from.sin_port in ground arith

get_elem?-write :
    (bytes memory : List ℕ) (i : ℕ)
    → get_elem? (bytes ++ drop (length bytes) memory) i
      ≡ (if ltb i (length bytes) then get_elem? bytes i else get_elem? memory i)
get_elem?-write [] memory i = ground arith
get_elem?-write (b ∷ bytes) memory zero = ground arith
get_elem?-write (b ∷ bytes) [] (suc i) =
    ap (λ (rest : List ℕ). get_elem? (bytes ++ rest) i) (sym (drop-nil (length bytes)))
    ∙ (get_elem?-write bytes [] i ∙ ground arith)
get_elem?-write (b ∷ bytes) (m ∷ memory) (suc i) = get_elem?-write bytes memory i ∙ ground arith

read_memory-bytes :
    (bytes : List ℕ) (from : SockAddr) (key : Key) (memory : List ℕ)
    → let copied = received_bytes bytes in
      let r = read (datagram bytes from) key memory in
      (r.len ≡ pos (length copied)) × (r.memory ≡ copied ++ drop (length copied) memory)
unfolding read
read_memory-bytes bytes from key memory = (ground arith, ground arith)

-- What `read` does to the memory for any datagram: of a datagram, the first 256 bytes, or all if it
-- has fewer, are written at the address that is given, and nothing else, whatever the size of the
-- buffer there; the length returned is their number.
pub read-memory :
    (bytes : List ℕ) (from : SockAddr) (key : Key) (memory : List ℕ) (i : ℕ)
    → let r = read (datagram bytes from) key memory in
      let len = min 256 (length bytes) in
      (r.len ≡ pos len)
      × (get_elem? r.memory i ≡ (if ltb i len then get_elem? bytes i else get_elem? memory i))
read-memory bytes from key memory i =
    let (len, written) = read_memory-bytes bytes from key memory in
    let size : length (received_bytes bytes) ≡ min 256 (length bytes) = length-take 256 bytes in
    let stored = get_elem?-write (received_bytes bytes) memory i in
    (
      len ∙ ap pos size,
      ap (λ (m : List ℕ). get_elem? m i) written
          ∙ (stored ∙ (elim (Bool-cases (ltb i (min 256 (length bytes)))) [
            | inl inside ↦
                rw (size, inside)
                  (get_elem?-take 256 bytes i
                    (omega (arith, ltb→lt i (min 256 (length bytes)) inside)))
            | inr outside ↦ rw (size, outside)
          ])),
    )
