-- ===== src/UdpMessage.antt =====
-- Network/UdpMessage.hpp and Network/UdpMessage.cpp: the header of a datagram.
pub mod Header
use ziqe.Prelude.{
  ℕ, ◌+◌, List, [], ◌∷◌, Option, none, some, Bool, true, false, not, bit_and, ◌==◌, if◌then◌else◌,
  ◌⊎◌, inl, inr,
}
use ziqe.Prelude.Fallible.{◌>>=◌}
use ziqe.Expected.{Expected, value, error}
use ziqe.ExtVector.{ExtVector, has_length}
use ziqe.ExtVector.Buffer.{ext_sink, ext_source}
use ziqe.Codec.{w16, big}
use ziqe.Codec.Fields.{int, can_read_t, read_t, write_t}

-- `Flags`
abbrev pub flag_none : ℕ
flag_none = 0

abbrev pub flag_syn : ℕ
flag_syn = 1

abbrev pub flag_last_fragment : ℕ
flag_last_fragment = 4

pub record UdpMessage : Type 0 where
  pub flags : ℕ
  pub message_number : ℕ

unfoldable pub new : ℕ → ℕ → UdpMessage
new flags number = record { flags = flags; message_number = number }

-- `ReadFromError`
pub data ReadFromError : Type 0 where
  not_enough_data other_parse_error : ReadFromError

unfoldable pub read_from : ExtVector → Option (Expected UdpMessage ReadFromError × ExtVector)
read_from v = elim (can_read_t ext_source w16 v).0 [
  | false ↦ some (error not_enough_data, v)
  | true ↦ do
    (flags, v') ← read_t ext_source big w16 v
    elim (can_read_t ext_source w16 v').0 [
      | false ↦ some (error not_enough_data, v')
      | true ↦ do (number, v'') ← read_t ext_source big w16 v'; some (value (new flags number), v'')
    ]
]

-- `writeTo`; the bytes behind the vector's window are `rest`
unfoldable pub write_to : UdpMessage → ExtVector → Option ExtVector
write_to m v = write_t (ext_sink []) big (int w16 m.flags ∷ int w16 m.message_number ∷ []) v

-- `isFlagsBitOn`
unfoldable pub is_flags_bit_on : ℕ → UdpMessage → Bool
is_flags_bit_on bit m = not (bit_and m.flags bit == 0)

unfoldable pub is_create_session : UdpMessage → Bool
is_create_session = is_flags_bit_on flag_syn

unfoldable pub is_last_fragment : UdpMessage → Bool
is_last_fragment = is_flags_bit_on flag_last_fragment

-- `setFlag`
unfoldable pub set_flag : ℕ → Bool → UdpMessage → UdpMessage
set_flag bit status m =
    let integer_bit = if not status then 0 else bit in
    record m { flags = bit_and m.flags integer_bit }

unfoldable pub set_last_fragment_flag : Bool → UdpMessage → UdpMessage
set_last_fragment_flag = set_flag flag_last_fragment

unfoldable pub set_create_session_flag : Bool → UdpMessage → UdpMessage
set_create_session_flag = set_flag flag_syn

-- `setMessageNumber`, of a `uint16_t`
unfoldable pub set_message_number : ℕ → UdpMessage → UdpMessage
set_message_number n m = record m { message_number = n }
