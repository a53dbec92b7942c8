-- ===== src/UdpMessage/Header.antt =====
-- The header of a datagram: its round trip, and what its flag setters do.
use ziqe.Prelude.{
  ℕ, ◌/◌, ◌%◌, ◌^◌, ◌*◌, ◌≤◌, ◌<◌, ◌≡◌, refl, ap, List, [], ◌∷◌, ◌++◌, some, true, false, arith,
  length, drop, bit_and,
}
use ziqe.Prelude.Bits.{bit_and_lowest, bit_and-zero, bit_and-one}
use ziqe.Prelude.Fallible.{Returns}
use ziqe.Expected.{value, error}
use ziqe.ExtVector.{ExtVector, has_length}
use ziqe.ExtVector.Window.{Shows, size-Shows}
use ziqe.ExtVector.Buffer.{ext_sink, ext_source, Unread, read_has_length}
use ziqe.Codec.{w16, big}
use ziqe.Codec.Bytes.{encode}
use ziqe.Codec.Fields.{int, can_read_t, has_bytes}
use ziqe.Codec.Fields.Writing.{write_t-encode}
use ziqe.Codec.Fields.Reading.{read_t-encode}
use ziqe.UdpMessage.{
  UdpMessage, new, read_from, write_to, not_enough_data, is_flags_bit_on, is_create_session,
  is_last_fragment, set_flag, set_last_fragment_flag,
}

-- Both fields are of type `uint16_t`.
pub record InRange (m : UdpMessage) : Type 0 where
  pub flags : m.flags < 256 ^ 2
  pub number : m.message_number < 256 ^ 2

-- The four bytes of the header.
abbrev pub header_bytes : UdpMessage → List ℕ
header_bytes m = encode big w16 m.flags ++ encode big w16 m.message_number

-- `writeTo` of a header of 16-bit fields, with at least four bytes before the cursor of a vector
-- that ends with its window, puts the header's four bytes there and moves the cursor behind them.
pub write_to-Shows :
    (m : UdpMessage) (past ahead : List ℕ) (v : ExtVector)
    → InRange m
    → 4 ≤ length ahead
    → Shows past ahead [] v
    → Returns (write_to m v) (Shows (past ++ header_bytes m) (drop 4 ahead) [])
unfolding write_to
write_to-Shows m past ahead v h room shows =
    write_t-encode (ext_sink []) big (int w16 m.flags ∷ int w16 m.message_number ∷ []) past ahead v
      (h.flags, (h.number, tt)) room shows

-- `ReadFrom` gives back a header of 16-bit fields that was written, and stops behind it.
pub read_from-header :
    (m : UdpMessage) (rest : List ℕ) (v : ExtVector)
    → InRange m
    → Unread (header_bytes m ++ rest) v
    → Returns (read_from v) (λ r. (r.0 ≡ value m) × Unread rest r.1)
unfolding read_from can_read_t has_bytes new
read_from-header m rest v h unread =
    let more = encode big w16 m.message_number ++ rest in
    let ready = read_has_length (header_bytes m ++ rest) v 2 unread (omega arith) in
    let (r, e, (got, unread')) =
      read_t-encode ext_source big w16 m.flags more v h.flags (omega arith) unread in
    let ready' = read_has_length more r.1 2 unread' (omega arith) in
    let (t, e', (got', unread'')) =
      read_t-encode ext_source big w16 m.message_number rest r.1 h.number (omega arith) unread' in
    (
      (value (new r.0 t.0), t.1),
      ground (arith, ready, ready', e, e'),
      (ap value (λ i. record { flags = got i; message_number = got' i }), unread''),
    )

-- A datagram shorter than a header is refused.
pub read_from-short :
    (past ahead rest : List ℕ) (v : ExtVector)
    → Shows past ahead rest v
    → length ahead < 2
    → read_from v ≡ some (error not_enough_data, v)
unfolding read_from can_read_t has_bytes has_length
read_from-short past ahead rest v h short = ground (arith, size-Shows h)

pub bit_and_four : (v : ℕ) → bit_and v 4 ≡ v / 4 % 2 * 4
bit_and_four v = omega (
  arith,
  bit_and_lowest v 4,
  bit_and_lowest (v / 2) 2,
  bit_and_lowest (v / 2 / 2) 1,
  bit_and-zero (v / 2 / 2 / 2),
)

-- Setting the last-fragment flag leaves it on only where it was on before, and switches every
-- other flag off; clearing it switches all flags off.
pub set_last_fragment_flag-flags :
    (m : UdpMessage)
    → (is_last_fragment (set_last_fragment_flag true m) ≡ is_last_fragment m)
      × (is_create_session (set_last_fragment_flag true m) ≡ false)
      × ((set_last_fragment_flag false m).flags ≡ 0)
unfolding set_last_fragment_flag set_flag is_last_fragment is_create_session is_flags_bit_on
set_last_fragment_flag-flags m =
    let kept = bit_and m.flags 4 in
    let f = bit_and_four m.flags in
    let k = bit_and_four kept in
    let s = bit_and-one kept in
    let same : bit_and kept 4 ≡ kept = omega (arith, f, k) in
    let no_syn : bit_and kept 1 ≡ 0 = omega (arith, f, s) in
    (rw same refl, rw no_syn refl, bit_and-zero m.flags)
