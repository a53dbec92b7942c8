-- ===== src/Tests/Messages.antt =====
-- Runs of Core/Protocol and Network/UdpMessage.
use ziqe.Prelude.{ℕ, length, ◌≡◌, List, [], ◌∷◌}
use ziqe.Vector.Elements.{filled}
use ziqe.ExtVector.{ExtVector, from_vector}
use ziqe.Codec.{big}
use ziqe.Codec.Fields.Writing.{encode_fields}
use ziqe.Message.{kill_thread, MessageWithThreadIds, thread_ids_fields, thread_ids_writable_size}
use ziqe.Message.Threads.{writable_size-length}
use ziqe.UdpMessage.{UdpMessage}

abbrev three_threads : MessageWithThreadIds
three_threads = record { type = kill_thread; thread_ids = 5 ∷ 6 ∷ 0x0102 ∷ [] }

abbrev written : List ℕ → ExtVector
written bytes = from_vector (filled bytes)

writable_size-length_example :
    thread_ids_writable_size three_threads
    ≡ length (encode_fields big (thread_ids_fields three_threads))
writable_size-length_example = writable_size-length big three_threads

abbrev first_datagram : UdpMessage
first_datagram = record { flags = 5; message_number = 300 }
