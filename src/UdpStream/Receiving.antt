-- ===== src/UdpStream/Receiving.antt =====
-- `receiveData` of Network/UdpStream.cpp.
use ziqe.Prelude.{ℕ, ◌+◌, ◌<◌, ◌≡◌, refl, List, [], ◌∷◌, ◌++◌, some, arith, length}
use ziqe.Prelude.Fallible.{◌>>=◌}
use ziqe.Expected.{value, error}
use ziqe.Vector.{size_mod}
use ziqe.Vector.Elements.{filled}
use ziqe.ExtVector
use ziqe.ExtVector.Buffer.{fresh-Unread}
use ziqe.Stream.{parse_error}
use ziqe.UdpMessage
use ziqe.UdpMessage.{UdpMessage}
use ziqe.Vector
use ziqe.Codec.{read_value, read_big}
use ziqe.Codec.Fields.{can_read_t, has_bytes, read_t}
use ziqe.UdpMessage.Header.{InRange, header_bytes, read_from-header}
use ziqe.UdpStream.{receive_data}

-- A datagram of a header with 16-bit fields and a payload is delivered as received: the header
-- stays in front of the payload.
pub receive_data-header :
    (m : UdpMessage) (payload : List ℕ)
    → InRange m
    → length payload + 4 < size_mod
    → receive_data (value (filled (header_bytes m ++ payload)))
      ≡ some (value (filled (header_bytes m ++ payload)))
unfolding receive_data
receive_data-header m payload h small =
    let bytes = header_bytes m ++ payload in
    let unread = fresh-Unread bytes (omega arith) in
    let (r, e, (got, _)) =
      read_from-header m payload (ExtVector.from_vector (filled bytes)) h unread in
    rw (e, ◌>>=◌, got) refl

-- A datagram shorter than a header is reported as a parse error.
pub receive_data-short :
    (bytes : List ℕ)
    → length bytes < 4
    → receive_data (value (filled bytes)) ≡ some (error parse_error)
unfolding receive_data UdpMessage.read_from can_read_t has_bytes read_t read_value read_big
    ExtVector.from_vector ExtVector.has_length ExtVector.size ExtVector.at ExtVector.increase_begin
    Vector.at
receive_data-short [] h = refl
receive_data-short (a ∷ []) h = refl
receive_data-short (a ∷ b ∷ []) h = refl
receive_data-short (a ∷ b ∷ c ∷ []) h = refl
receive_data-short (a ∷ b ∷ c ∷ d ∷ bytes) h = absurd (omega arith)
