-- ===== src/Message.antt =====
-- Core/Protocol/Message.hpp, Message.cpp and MessageStream: the messages of the Ziqe protocol.
pub mod Types
pub mod Threads
pub mod Stream
use ziqe.Prelude.{
  ℕ, ◌+◌, ◌*◌, ◌%◌, ◌^◌, List, [], ◌∷◌, Option, none, some, Bool, true, false, length,
  if◌then◌else◌,
}
use ziqe.Prelude.Fallible.{◌>>=◌}
use ziqe.Expected.{Expected, value, error}
use ziqe.Codec.{Width, w16, w64, Order, little, big}
use ziqe.Codec.Buffers.{Sink, Source}
use ziqe.Codec.Fields.{Field, int, ints, header, can_read_t, read_t, write_t}

-- `Message::Type`
pub data MessageType : Type 0 where
  get_memory get_memory_result write_memory give_page : MessageType
  stop_thread stop_thread_ok kill_thread kill_thread_ok : MessageType
  continue_thread continue_thread_ok : MessageType
  process_peer_hello process_peer_goodbye : MessageType
  process_peer_run_thread process_peer_run_thread_ok get_and_reserve_memory : MessageType
  do_system_call do_system_call_result : MessageType
  run_thread_peer_lookup run_thread_peer_lookup_propose : MessageType
  run_thread_peer_lookup_accept_propose : MessageType

-- The integer of each enumerator; two of them have no initialiser and follow their predecessor.
unfoldable pub code : MessageType → ℕ
code get_memory = 0x8001
code get_memory_result = 0x8005
code write_memory = 0x8010
code give_page = 0x8015
code stop_thread = 0x8020
code stop_thread_ok = 0x8021
code kill_thread = 0x8025
code kill_thread_ok = 0x8026
code continue_thread = 0x8030
code continue_thread_ok = 0x8031
code process_peer_hello = 0x8045
code process_peer_goodbye = 0x8050
code process_peer_run_thread = 0x8055
code process_peer_run_thread_ok = 0x8056
code get_and_reserve_memory = 0x8057
code do_system_call = 0x4000
code do_system_call_result = 0x4001
code run_thread_peer_lookup = 0x2000
code run_thread_peer_lookup_propose = 0x2001
code run_thread_peer_lookup_accept_propose = 0x2002

-- `ParseError`
pub data ParseError : Type 0 where
  too_short invalid_type other : ParseError

-- `Message::IsValidMessageType`, whose switch has only a default
unfoldable pub is_valid_message_type : ℕ → Bool
is_valid_message_type type = false

-- The arguments that `Message::writeToWriter` and its overriders hand to `writeT`.
unfoldable pub message_fields : MessageType → List Field
message_fields type = int w16 (code type) ∷ []

-- `Message::writableSize`
abbrev pub message_writable_size : ℕ
message_writable_size = 2

-- `MessageWithThreadID`
pub record MessageWithThreadId : Type 0 where
  pub type : MessageType
  pub thread_id : ℕ

unfoldable pub thread_id_fields : MessageWithThreadId → List Field
thread_id_fields m = header (code m.type) ∷ int w64 m.thread_id ∷ []

unfoldable pub thread_id_writable_size : MessageWithThreadId → ℕ
thread_id_writable_size m = 8 + message_writable_size

-- `MessageWithThreadIDs`, which is written; reading it calls `readTVector`, which does not compile. The
-- assertion on the number of ids only logs
pub record MessageWithThreadIds : Type 0 where
  pub type : MessageType
  pub thread_ids : List ℕ

unfoldable pub thread_ids_fields : MessageWithThreadIds → List Field
thread_ids_fields m =
    header (code m.type) ∷ int w16 (length m.thread_ids % 2 ^ 16) ∷ ints w64 m.thread_ids ∷ []

unfoldable pub thread_ids_writable_size : MessageWithThreadIds → ℕ
thread_ids_writable_size m = message_writable_size + 2 + length m.thread_ids * 8

module _ {S : Type 0} (source : Source S) (order : Order) where
  -- `MessageWithThreadID::ReadFrom`
  unfoldable pub read_thread_id : S → Option (Expected ℕ ParseError × S)
  read_thread_id s =
      let (ready, s') = can_read_t source w64 s in
      if ready
      then (do (id, s'') ← read_t source order w64 s'; some (value id, s''))
      else some (error too_short, s')

-- The orders behind the aliases `LittleEndianFieldReader` and `LittleEndianFieldWriter`, with
-- which a message stream reads and writes.
abbrev pub reader_order : Order
reader_order = little

abbrev pub writer_order : Order
writer_order = big

-- `ReceiveMessageError`
pub data ReceiveMessageError : Type 0 where
  other_receive_error : ReceiveMessageError

-- `MessageStream::receiveMessage`
unfoldable pub receive_message :
    {S : Type 0} → Source S → S → Option (Expected ℕ ReceiveMessageError × S)
receive_message source s =
    let (ready, s') = can_read_t source w16 s in
    if ready
    then (do
      (type, s'') ← read_t source reader_order w16 s'
      some (if is_valid_message_type type then value type else error other_receive_error, s''))
    else some (error other_receive_error, s')
