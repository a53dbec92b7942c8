-- ===== src/UdpStream.antt =====
-- Network/UdpStream.hpp and Network/UdpStream.cpp, with `OutputStreamVector` of Network/Stream.hpp:
-- segments are written behind a datagram header, and datagrams are received with theirs.
pub mod Segments
pub mod Receiving
pub mod Connection
pub mod Datagrams
use ziqe.Prelude.{
  ℕ, ◌+◌, ◌-◌, ◌%◌, ◌^◌, List, [], ◌∷◌, ◌++◌, Option, none, some, Bool, true, false, ltb, leb,
  if◌then◌else◌,
}
use ziqe.Prelude.Fallible.{◌>>=◌}
use ziqe.Expected.{Expected, value, error}
use ziqe.Vector
use ziqe.ExtVector
use ziqe.ExtVector.{ExtVector}
use ziqe.Stream.{ReceiveError, timeout, parse_error, other_error}
use ziqe.Vector.Elements.{filled}
use ziqe.UdpMessage
use ziqe.UdpMessage.{UdpMessage, flag_none, flag_syn}

-- `Socket::ReceiveError`
pub data SocketReceiveError : Type 0 where
  disconnected socket_other socket_timeout : SocketReceiveError

unfoldable pub socket_receive_error_to_error : SocketReceiveError → ReceiveError
socket_receive_error_to_error disconnected = other_error
socket_receive_error_to_error socket_other = other_error
socket_receive_error_to_error socket_timeout = timeout

-- `UdpInputVector::receiveData`, `packet` being what `receiveRawPacket` returned
unfoldable pub receive_data :
    Expected (List (Option ℕ)) SocketReceiveError → Option (Expected (List (Option ℕ)) ReceiveError)
receive_data (error e) = some (error (socket_receive_error_to_error e))
receive_data (value bytes) = do
  r ← UdpMessage.read_from (ExtVector.from_vector bytes)
  elim r.0 [ error e ↦ some (error parse_error) | value m ↦ some (value bytes) ]

-- `UdpOutputVector` together with the members of `OutputStreamVector`; `sent` holds the vectors that were
-- handed to `sendRawPacket`, the first one first.
pub record UdpOutput : Type 0 where
  pub vector : ExtVector
  pub auto_send_data_size : ℕ
  pub next_message : UdpMessage
  pub sent : List (List (Option ℕ))

-- `createNewSegment`
unfoldable pub create_new_segment : UdpOutput → Option UdpOutput
create_new_segment s = do
  v ← UdpMessage.write_to s.next_message (ExtVector.set_begin 0 (ExtVector.set_end 0 s.vector))
  some (record s {
    vector = v;
    next_message =
        UdpMessage.set_message_number ((s.next_message.message_number + 1) % 2 ^ 16) s.next_message;
  })

-- The members of `OutputStreamVector`, and its constructor from a send size
pub record OutputStreamVector : Type 0 where
  pub vector : ExtVector
  pub auto_send_data_size : ℕ

unfoldable pub output_stream_vector : ℕ → OutputStreamVector
output_stream_vector auto_send_size = record {
  vector = ExtVector.empty;
  auto_send_data_size = auto_send_size;
}

-- The initialisers and the body of the constructor of `UdpOutputVector`, on the base object that it is
-- given. The source names no constructor of the base, which has no default one.
unfoldable pub new : OutputStreamVector → Bool → Option UdpOutput
new base is_create_connection = create_new_segment (record {
  vector = base.vector;
  auto_send_data_size = base.auto_send_data_size;
  next_message = UdpMessage.new (if is_create_connection then flag_syn else flag_none) 0;
  sent = [];
})

-- The first branch of `sendCurrentSegment`: write the previous header once more.
unfoldable pub rewrite_header : UdpOutput → Option UdpOutput
rewrite_header s =
    let last = UdpMessage.set_last_fragment_flag true s.next_message in
    let message =
      UdpMessage.set_message_number ((last.message_number + 2 ^ 16 - 1) % 2 ^ 16) last in
    do
      v ← UdpMessage.write_to message (ExtVector.set_begin 0 s.vector)
      some (record s {
        vector = ExtVector.set_begin s.vector.index_begin v;
        next_message = UdpMessage.set_last_fragment_flag false message;
      })

-- `sendCurrentSegment`
unfoldable pub send_current_segment : UdpOutput → Option UdpOutput
send_current_segment s = do
  s' ←
      (if ltb (Vector.size s.vector.vector) s.auto_send_data_size then rewrite_header s else some s)
  create_new_segment (record s' { sent = s'.sent ++ s'.vector.vector ∷ [] })

-- `sync`
unfoldable pub sync : UdpOutput → Option UdpOutput
sync = send_current_segment

-- `isAutoSendSizePassed` and `expand`
unfoldable pub is_auto_send_size_passed : UdpOutput → Bool
is_auto_send_size_passed s = leb s.auto_send_data_size (ExtVector.size s.vector)

unfoldable pub expand : ℕ → UdpOutput → Option UdpOutput
expand how_much s =
    if is_auto_send_size_passed s
    then sync s
    else some (record s { vector = ExtVector.expand how_much s.vector })

-- `increaseBegin` and `operator[]` of the output vector.
unfoldable pub increase_begin : ℕ → UdpOutput → UdpOutput
increase_begin how_much s = record s { vector = ExtVector.increase_begin how_much s.vector }

unfoldable pub put : UdpOutput → ℕ → ℕ → Option UdpOutput
put s i x = do v ← ExtVector.put s.vector i x; some (record s { vector = v })
