-- ===== src/Io/Socket.antt =====
-- `class Socket` of src/io/socket.hpp and src/io/socket.cc: the receive timeout of the constructor, `read`
-- and `send` on a UDP socket. What the kernel answers is an argument. Opening, binding and closing the
-- socket are in Open. Log lines are left out, but for the two kinds of `read`.
pub mod Datagrams
pub mod Open
pub mod Thread
pub mod Examples
use robo_band.Base.{
  ℕ, ◌+◌, ◌-◌, ◌*◌, ltb, ◌/◌, ◌%◌, Bool, true, false, Option, none, some, List, [], ◌∷◌, ◌++◌,
  length, take, drop, if◌then◌else◌,
}
use robo_band.Base.Int.{ℤ, pos, negsuc, ◌-ℤ◌, ◌*ℤ◌, ◌/ℤ◌, ltb_ℤ}
use robo_band.Base.Float.{Float, ◌*ᶠ◌, ◌/ᶠ◌, zero_float}

-- `std::tuple<in_addr_t, int>`: the address as it stands in `s_addr`, and the port.
abbrev pub Key : Type 0
Key = ℕ × ℤ

-- `sockaddr_in`, with the port in the order of the network.
pub record SockAddr : Type 0 where
  pub sin_family : ℕ
  pub sin_addr : ℕ
  pub sin_port : ℕ

abbrev pub af_inet : ℕ
af_inet = 2

pub record Timeval : Type 0 where
  pub tv_sec : ℤ
  pub tv_usec : ℤ

-- `htons` and `ntohs` on a machine with the low byte first: the two bytes are swapped.
unfoldable pub swap_bytes : ℕ → ℕ
swap_bytes n = n % 256 * 256 + n / 256 % 256

-- The conversion of an `int` to `uint16_t`, which the call of `htons` makes.
unfoldable pub to_uint16 : ℤ → ℕ
to_uint16 (pos n) = n % 65536
to_uint16 (negsuc n) = 65535 - n % 65536

-- `%` on `int`.
abbrev pub remainder : ℤ → ℤ → ℤ
remainder a b = a -ℤ a /ℤ b *ℤ b

-- The receive timeout that the constructor sets, if it sets one.
unfoldable pub receive_timeout {ℓ} : {F : Type ℓ} ⦃f : Float F⦄ → F → Option Timeval
receive_timeout ⦃f⦄ timeout_ms =
    if f.lt zero_float timeout_ms
    then some (record {
      tv_sec = f.to_int (timeout_ms /ᶠ f.of_int (pos 1000));
      tv_usec = remainder (f.to_int (timeout_ms *ᶠ f.of_int (pos 1000))) (pos 1000000);
    })
    else none

-- How `recvfrom` ends: with a datagram and where it came from, or with an error.
pub data Received : Type 0 where
  failed : Received
  datagram : List ℕ → SockAddr → Received

-- What `read` logs.
pub data Log : Type 0 where
  nothing read_timeout error : Log

pub record Reading : Type 0 where
  pub len : ℤ
  pub key : Key
  -- The memory from `data` on.
  pub memory : List ℕ
  pub log : Log

-- The part of a datagram that `recvfrom` copies.
abbrev pub received_bytes : List ℕ → List ℕ
received_bytes bytes = take 256 bytes

-- `Socket::read`, with what the key and the memory hold before.
unfoldable pub read : Received → Key → List ℕ → Reading
unfolding swap_bytes
read failed key memory = record { len = negsuc 0; key = key; memory = memory; log = error }
read (datagram bytes from) key memory =
    let copied = received_bytes bytes in
    let written = copied ++ drop (length copied) memory in
    let len = length copied in
    if ltb 0 len
    then record {
      len = pos len;
      key = (from.sin_addr, pos (swap_bytes from.sin_port));
      memory = written;
      log = nothing;
    }
    else record { len = pos 0; key = key; memory = written; log = read_timeout }

-- `Socket::send`, for what `sendto` returns: where the message is sent, and the result.
unfoldable pub send : Key → ℤ → SockAddr × Bool
unfolding swap_bytes to_uint16
send (ip, port) n = (
  record { sin_family = af_inet; sin_addr = ip; sin_port = swap_bytes (to_uint16 port) },
  if ltb_ℤ n (pos 0) then false else true,
)
