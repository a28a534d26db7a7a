-- ===== src/Io/Socket/Thread/Messages.antt =====
-- What a socket hands to its devices.
use robo_band.Base.{
  ℕ, ◌≡◌, ◌∙◌, refl, ap, sym, true, false, some, List, [], ◌∷◌, ◌++◌, length, drop, ltb, arith,
  if◌then◌else◌, Option-cases, Bool-cases, Bool, inl, inr, All, suc, none, ◌&&◌, leb, ◌≤◌, ◌<◌,
  length-append, length-drop, length-take,
}
use Prim.Native.Nat.{min}
use mathlib.Core.Logic.{if_pos, if_neg}
use mathlib.Core.Path.{subst}
use mathlib.Core.Option.{some-injective}
use robo_band.Base.Int.{pos, negsuc, ltb_ℤ}
use robo_band.Io.Key.{Unpacker, Served, find, dispatch, thread_func}
use robo_band.Io.Key
use robo_band.Io.Socket.{
  Key, SockAddr, swap_bytes, received_bytes, Received, failed, datagram, read, nothing,
}
use robo_band.Io.Socket.Thread.{socket_thread}

-- The messages of the datagrams that are not empty: the first 256 bytes, and where they came from.
abbrev pub messages : List Received → List (Key.Received Key)
messages [] = []
messages (failed ∷ xs) = messages xs
messages (datagram [] from ∷ xs) = messages xs
messages (datagram (b ∷ bytes) from ∷ xs) =
    record {
      key = (from.sin_addr, pos (swap_bytes from.sin_port));
      len = pos (length (received_bytes (b ∷ bytes)));
      buffer = received_bytes (b ∷ bytes);
    }
    ∷ messages xs

-- Every datagram, cut to 256 bytes, fits into so many bytes.
abbrev pub all_fit : ℕ → List Received → Bool
all_fit size [] = true
all_fit size (failed ∷ xs) = all_fit size xs
all_fit size (datagram bytes from ∷ xs) = leb (min 256 (length bytes)) size && all_fit size xs

-- An unpacker that looks at no byte after those of the message.
abbrev pub LooksWithin {ℓ} : {W : Type ℓ} → Unpacker W → Type ℓ
LooksWithin {W = W} u =
    (bytes more : List ℕ) (w : W)
    → u (bytes ++ more) (pos (length bytes)) w ≡ u bytes (pos (length bytes)) w

read-some :
    (b : ℕ) (bytes : List ℕ) (from : SockAddr) (memory : List ℕ)
    → let copied = received_bytes (b ∷ bytes) in
      read (datagram (b ∷ bytes) from) (0, pos 0) memory ≡ record {
        len = pos (length copied);
        key = (from.sin_addr, pos (swap_bytes from.sin_port));
        memory = copied ++ drop (length copied) memory;
        log = nothing;
      }
unfolding read
read-some b bytes from memory =
    let some_bytes : ltb 0 (length (received_bytes (b ∷ bytes))) ≡ true = ground arith in
    rw some_bytes refl

-- The size of the memory after a datagram.
written-length :
    (bytes buffer : List ℕ)
    → leb (min 256 (length bytes)) (length buffer) ≡ true
    → let copied = received_bytes bytes in
      length (copied ++ drop (length copied) buffer) ≡ length buffer
written-length bytes buffer fits =
    let copied = received_bytes bytes in
    let small : min 256 (length bytes) ≤ length buffer = ground arith in
    omega (
      arith,
      length-append copied (drop (length copied) buffer),
      length-drop (length copied) buffer,
      length-take 256 bytes,
    )

leb_below : (a b : ℕ) → b < a → leb a b ≡ false
leb_below a b h = ground arith

written-long :
    (bytes buffer : List ℕ)
    → leb (min 256 (length bytes)) (length buffer) ≡ false
    → let copied = received_bytes bytes in
      leb (length (copied ++ drop (length copied) buffer)) (length buffer) ≡ false
written-long bytes buffer long =
    let copied = received_bytes bytes in
    let large : length buffer < min 256 (length bytes) = ground arith in
    let larger : length buffer < length (copied ++ drop (length copied) buffer) = omega (
      arith,
      length-append copied (drop (length copied) buffer),
      length-drop (length copied) buffer,
      length-take 256 bytes,
    ) in
    leb_below (length (copied ++ drop (length copied) buffer)) (length buffer) larger

module _ {ℓ} (same : Discrete Key) {W : Type ℓ} where
  find-All :
      (P : Unpacker W → Type ℓ) (k : Key) (unpackers : List (Key × Unpacker W)) (u : Unpacker W)
      → All (λ row. P row.1) unpackers
      → find same k unpackers ≡ some u
      → P u
  unfolding find
  find-All P k [] u all e = absurd (ground arith)
  find-All P k ((j, v) ∷ rest) u (first, all) e = elim (same j k) [
    | yes p ↦
        let here : some v ≡ some u = sym (if_pos (same j k) p (some v) (find same k rest)) ∙ e in
        subst P (some-injective v u here) first
    | no p ↦ find-All P k rest u all (sym (if_neg (same j k) p (some v) (find same k rest)) ∙ e)
  ]

  module _ (unpackers : List (Key × Unpacker W)) where
    dispatch-negative :
        (k : Key) (n : ℕ) (buffer : List ℕ) (served : Served W)
        → dispatch same unpackers (record { key = k; len = negsuc n; buffer = buffer }) served
          ≡ served
    unfolding dispatch
    dispatch-negative k n buffer served =
        let negative : ltb_ℤ (pos 0) (negsuc n) ≡ false = ground arith in rw negative refl

    dispatch-zero :
        (k : Key) (buffer : List ℕ) (served : Served W)
        → dispatch same unpackers (record { key = k; len = pos 0; buffer = buffer }) served ≡ served
    unfolding dispatch
    dispatch-zero k buffer served = refl

  module _ (unpackers : List (Key × Unpacker W))
      (within : All (λ row. LooksWithin row.1) unpackers) where
    -- The bytes that earlier datagrams left behind a message do not matter.
    dispatch-within :
        (k : Key) (bytes more : List ℕ) (served : Served W)
        → dispatch same unpackers
            (record { key = k; len = pos (length bytes); buffer = bytes ++ more })
            served
          ≡ dispatch same unpackers
              (record { key = k; len = pos (length bytes); buffer = bytes })
              served
    unfolding dispatch
    dispatch-within k bytes more served = elim (Option-cases (find same k unpackers)) [
      | inl e ↦ rw e refl
      | inr (u, e) ↦ rw e (
          ap
            (λ w.
              if ltb_ℤ (pos 0) (pos (length bytes)) then record served { world = w } else served)
            (find-All LooksWithin k unpackers u within e bytes more served.world))
    ]

    -- One round of the thread for a datagram that is not empty.
    socket_thread-some :
        (b : ℕ) (bytes : List ℕ) (from : SockAddr) (xs : List Received) (buffer : List ℕ)
        (served : Served W)
        → let copied = received_bytes (b ∷ bytes) in
          let key : Key = (from.sin_addr, pos (swap_bytes from.sin_port)) in
          let memory = copied ++ drop (length copied) buffer in
          socket_thread same unpackers (datagram (b ∷ bytes) from ∷ xs) buffer served ≡ (
            if leb (length memory) (length buffer)
            then socket_thread same unpackers xs memory (
                dispatch same unpackers
                  (record { key = key; len = pos (length copied); buffer = copied })
                  served)
            else none)
    unfolding socket_thread
    socket_thread-some b bytes from xs buffer served =
        let copied = received_bytes (b ∷ bytes) in
        let behind = drop (length copied) buffer in
        ap
          (λ r.
            if leb (length r.memory) (length buffer)
            then socket_thread same unpackers xs r.memory (
                dispatch same unpackers (record { key = r.key; len = r.len; buffer = r.memory })
                  served)
            else none)
          (read-some b bytes from buffer)
        ∙ ap
            (λ s.
              if leb (length (copied ++ behind)) (length buffer)
              then socket_thread same unpackers xs (copied ++ behind) s
              else none)
            (dispatch-within (from.sin_addr, pos (swap_bytes from.sin_port)) copied behind served)

    -- If no unpacker of a socket looks at bytes after those of its message: as long as every datagram, cut
    -- to 256 bytes, fits into the buffer, the thread calls the unpackers as for these bytes of each datagram
    -- that is not empty, in order, with the address and the port of its sender as the key, and errors,
    -- empty datagrams and the bytes that earlier datagrams left in the buffer make no difference. If one
    -- does not fit, the thread writes past the end of the buffer.
    pub socket_thread-messages :
        (xs : List Received) (buffer : List ℕ) (served : Served W)
        → socket_thread same unpackers xs buffer served ≡ (
            if all_fit (length buffer) xs
            then some (thread_func same unpackers (messages xs) served)
            else none)
    unfolding socket_thread thread_func read
    socket_thread-messages [] buffer served = refl
    socket_thread-messages (failed ∷ xs) buffer served =
        let same_size : leb (length buffer) (length buffer) ≡ true = ground arith in
        rw (same_size, dispatch-negative unpackers (0, pos 0) 0 buffer served)
          (socket_thread-messages xs buffer served)
    socket_thread-messages (datagram [] from ∷ xs) buffer served =
        let same_size : leb (length buffer) (length buffer) ≡ true = ground arith in
        let fits : leb (min 256 0) (length buffer) ≡ true = ground arith in
        rw (same_size, fits, dispatch-zero unpackers (0, pos 0) buffer served)
          (socket_thread-messages xs buffer served)
    socket_thread-messages (datagram (b ∷ bytes) from ∷ xs) buffer served =
        let copied = received_bytes (b ∷ bytes) in
        let behind = drop (length copied) buffer in
        let key : Key = (from.sin_addr, pos (swap_bytes from.sin_port)) in
        let message : Key.Received Key = record {
          key = key;
          len = pos (length copied);
          buffer = copied;
        } in
        let rest =
          socket_thread-messages xs (copied ++ behind) (dispatch same unpackers message served) in
        socket_thread-some b bytes from xs buffer served
        ∙ elim (Bool-cases (leb (min 256 (suc (length bytes))) (length buffer))) [
          | inl fits ↦
              let size : length (copied ++ behind) ≡ length buffer =
                written-length (b ∷ bytes) buffer fits in
              let room : leb (length (copied ++ behind)) (length buffer) ≡ true = ground arith in
              rw (room, fits)
                (rest
                  ∙ ap
                      (λ n.
                        if all_fit n xs
                        then some (
                            thread_func same unpackers (messages xs)
                              (dispatch same unpackers message served))
                        else none)
                      size)
          | inr long ↦
              let full : leb (length (copied ++ behind)) (length buffer) ≡ false =
                written-long (b ∷ bytes) buffer long in
              rw (full, long) refl
        ]
