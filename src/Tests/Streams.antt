-- ===== src/Tests/Streams.antt =====
-- Runs of Network/Stream.cpp and Network/UdpStream.cpp.
use ziqe.Prelude.{ℕ, ◌≡◌, arith, List, [], ◌∷◌, some, none, get_elem?, true, refl}
use ziqe.Prelude.Fallible.{Returns}
use ziqe.Expected.{value, error}
use ziqe.Vector.Elements.{filled}
use ziqe.ExtVector.{from_vector}
use ziqe.ExtVector.Window.{from_vector-Shows}
use ziqe.Stream.{InputStream, at, increase_begin, has_length, timeout}
use ziqe.Stream.Contents.{Unread, at-Unread, advance-Unread}
use ziqe.Stream.Receiving.{Asked, has_length-Asked}
use ziqe.Vector
use ziqe.ExtVector
use ziqe.Codec.{write_value, write_big, cut}
use ziqe.Codec.Fields.{puts, write_int, write_one, write_each, write_t, make_room}
use ziqe.UdpMessage
use ziqe.UdpMessage.{UdpMessage}
use ziqe.UdpStream.{UdpOutput, create_new_segment, output_stream_vector, new, put}
use ziqe.UdpStream.Segments.{Reachable, Segment, start, Reachable-Segment, put-none}

-- Two vectors received, and a third one and an error still to come.
abbrev stream : InputStream
stream = record {
  queue = record {
    current = from_vector (filled (1 ∷ 2 ∷ []));
    vectors = filled (3 ∷ 4 ∷ []) ∷ [];
    vectors_size = 4;
  };
  arrivals = value (5 ∷ []) ∷ error timeout ∷ [];
}

abbrev ahead : List ℕ
ahead = 1 ∷ 2 ∷ 3 ∷ 4 ∷ []

abbrev stream-Unread : Unread ahead stream
stream-Unread = record {
  front = 1 ∷ 2 ∷ [];
  behind = (3 ∷ 4 ∷ []) ∷ [];
  bytes = refl;
  holds = record {
    past = [];
    rest = [];
    window = from_vector-Shows (1 ∷ 2 ∷ []) (omega arith);
    queued = refl;
    counted = refl;
    small = omega arith;
  };
}

advance-Unread_example : Returns (increase_begin 3 stream) (Unread (4 ∷ []))
advance-Unread_example = advance-Unread ahead stream 3 stream-Unread (omega arith)

at-Unread_example : at stream 2 ≡ get_elem? ahead 2
at-Unread_example = at-Unread ahead stream 2 stream-Unread (omega arith)

has_length-Asked_example : Asked 5 ahead (value (5 ∷ []) ∷ error timeout ∷ []) (has_length 5 stream)
has_length-Asked_example = has_length-Asked 5 ahead stream stream-Unread (omega arith)

abbrev datagram : UdpMessage
datagram = record { flags = 1; message_number = 2 }

-- The output vector of a new connection whose segments are sent from 512 bytes on.
abbrev opened : UdpOutput
opened = record {
  vector = record { vector = filled (0 ∷ 1 ∷ 0 ∷ 0 ∷ []); index_begin = 4; index_end = 0 };
  auto_send_data_size = 512;
  next_message = record { flags = 1; message_number = 1 };
  sent = [];
}

opened_by_new : new (output_stream_vector 512) true ≡ some opened
unfolding new output_stream_vector create_new_segment UdpMessage.new UdpMessage.write_to
    UdpMessage.set_message_number write_t write_each write_one write_int make_room puts write_value
    write_big cut ExtVector.set_begin ExtVector.set_end ExtVector.size ExtVector.expand
    ExtVector.put ExtVector.increase_begin Vector.expand Vector.resize Vector.resize_buffer
    Vector.move_old Vector.construct_n Vector.initial Vector.put Vector.at
opened_by_new = refl

abbrev opened-Reachable : Reachable opened
opened-Reachable = start 512 true opened (omega arith) opened_by_new

Reachable-Segment_example : Segment opened
Reachable-Segment_example = Reachable-Segment opened opened-Reachable

put-none_example : put opened 3 7 ≡ none
unfolding ExtVector.size
put-none_example = put-none opened 3 7 opened-Reachable (omega arith)
