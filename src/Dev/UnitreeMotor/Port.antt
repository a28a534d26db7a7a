-- ===== src/Dev/UnitreeMotor/Port.antt =====
-- From the bytes on a serial port to the motors: the port with the heads that the motors registered, its
-- thread, and `unpack`.
use mathlib.Core.Path.{subst}
use robo_band.Base.{
  ℕ, zero, suc, ◌+◌, ◌<◌, ◌≡◌, ◌∙◌, refl, sym, ap, true, false, List, [], ◌∷◌, All, map, arith,
  length,
}
use robo_band.Base.Int.{ℤ}
use robo_band.Base.Float.{Float}
use robo_band.Io.NoKey.{Served}
use robo_band.Io.Serial.{Serial, Event, new_serial, add_rx_head_tail}
use robo_band.Io.Serial.Bytes.{starts_with, insert_or_assign}
use robo_band.Io.Serial.Framing.{bytes}
use robo_band.Io.Serial.Thread.{serial_thread}
use robo_band.Io.Serial.Thread.Chunks.{Steady, count_timeouts}
use robo_band.Io.Serial.Thread.Frames.{IsFrame, flatten, serial_thread-frames}
use robo_band.Dev.UnitreeMotor.{UnitreeMotor, register_head, resv_head0, resv_head1}
use robo_band.Dev.UnitreeMotor.Frames.{Report, frame}
use robo_band.Dev.UnitreeMotor.Bus.{unpackers}
use robo_band.Dev.UnitreeMotor.Stream.{
  elem, last_of, count_unknown, told, IsSent, run, run-told, run-stranger, run-warnings,
}

abbrev motor_head : List ℕ
motor_head = resv_head0 ∷ resv_head1 ∷ []

-- The port after the constructors of this many motors.
abbrev pub with_motors : ℕ → Serial → Serial
with_motors zero s = s
with_motors (suc n) s = register_head (with_motors n s)

with_motors-head :
    (n size : ℕ) (t_inline t_wait : ℤ)
    → ((with_motors (suc n) (new_serial size t_inline t_wait)).head_tails ≡ (motor_head, []) ∷ [])
      × ((with_motors (suc n) (new_serial size t_inline t_wait)).buffer_size ≡ size)
unfolding register_head add_rx_head_tail insert_or_assign new_serial
with_motors-head zero size t_inline t_wait = (refl, refl)
with_motors-head (suc n) size t_inline t_wait =
    let (table, sized) = with_motors-head n size t_inline t_wait in
    (ap (insert_or_assign motor_head []) table, sized)

frame-IsFrame :
    (crc : List ℕ → ℕ) (s : Serial) (r : Report)
    → s.buffer_size ≡ 16
    → IsFrame s motor_head (frame crc r)
unfolding frame starts_with
frame-IsFrame crc s r sized = (sym sized, refl)

frames-IsFrame :
    (crc : List ℕ → ℕ) (s : Serial) (rs : List Report)
    → s.buffer_size ≡ 16
    → All (IsFrame s motor_head) (map (frame crc) rs)
frames-IsFrame crc s [] sized = tt
frames-IsFrame crc s (r ∷ rs) sized = (frame-IsFrame crc s r sized, frames-IsFrame crc s rs sized)

length-map : (crc : List ℕ → ℕ) (rs : List Report) → length (map (frame crc) rs) ≡ length rs
length-map crc [] = refl
length-map crc (r ∷ rs) = ap suc (length-map crc rs)

-- The port of a robot: a buffer of 16 bytes, and a motor at least.
abbrev pub port : ℕ → ℤ → ℤ → Serial
port n t_inline t_wait = with_motors (suc n) (new_serial 16 t_inline t_wait)

module _ {ℓ} {F : Type ℓ} ⦃f : Float F⦄ (crc : List ℕ → ℕ) (n : ℕ) (t_inline t_wait : ℤ) where
  port-frames :
      (ks : List ℕ) (rs : List Report) (es : List Event) (served : Served (ℕ → UnitreeMotor F))
      → bytes es ≡ flatten (map (frame crc) rs)
      → Steady 16 0 es
      → let s = port n t_inline t_wait in
        let after = serial_thread s (unpackers crc ks) (length rs + count_timeouts es) es served in
        let whole = run crc s.buffer_size ks rs served in
        (after.world ≡ whole.world) × (after.warnings ≡ whole.warnings)
  port-frames ks rs es served arrive steady =
      let s = port n t_inline t_wait in
      let (table, sized) = with_motors-head n 16 t_inline t_wait in
      rw (← length-map crc rs) (
        serial_thread-frames s motor_head [] table (unpackers crc ks) (map (frame crc) rs) es served
          (omega (arith, sized)) (frames-IsFrame crc s rs sized) arrive
          (subst (λ size. Steady size 0 es) (sym sized) steady))

  -- On the 16 byte port of at least one motor, let frames of reports whose members and checksum fit
  -- arrive, in whatever chunks, where the kernel gives no more than it is asked for and is silent only
  -- between frames, and let the j-th motor have number j. After a round of the thread for each report
  -- and each timeout, every motor that is bound to the port is as the last report of its number says,
  -- or as it was if there is none; the others are as they were; and a warning was logged for each report
  -- with a number that no motor has.
  pub port-told :
      (ks : List ℕ) (rs : List Report) (es : List Event) (served : Served (ℕ → UnitreeMotor F))
      → All (IsSent crc) rs
      → ((k : ℕ) → (served.world k).id ≡ k)
      → bytes es ≡ flatten (map (frame crc) rs)
      → Steady 16 0 es
      → let s = port n t_inline t_wait in
        let after = serial_thread s (unpackers crc ks) (length rs + count_timeouts es) es served in
        ((k : ℕ) → elem k ks ≡ true → after.world k ≡ told crc (served.world k) (last_of k rs))
        × ((k : ℕ) → elem k ks ≡ false → after.world k ≡ served.world k)
        × (after.warnings ≡ served.warnings + count_unknown ks rs)
  port-told ks rs es served sent ids arrive steady =
      let size = (port n t_inline t_wait).buffer_size in
      let positive : 0 < size = omega (arith, (with_motors-head n 16 t_inline t_wait).1) in
      let (world, warnings) = port-frames ks rs es served arrive steady in
      (
        λ k there. ap (λ w. w k) world ∙ run-told crc size ks rs served k positive sent ids there,
        λ k out. ap (λ w. w k) world ∙ run-stranger crc size ks rs served k positive sent ids out,
        warnings ∙ run-warnings crc size ks rs served positive sent ids,
      )
