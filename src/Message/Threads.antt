-- ===== src/Message/Threads.antt =====
-- `MessageWithThreadID` and `MessageWithThreadIDs` of Core/Protocol/Message.hpp.
use mathlib.Core.List.{append_assoc}
use ziqe.Prelude.{
  ℕ, ◌%◌, ◌^◌, ◌≤◌, ◌≡◌, ◌∙◌, ap, List, [], ◌++◌, arith, length, length-append, append_nil,
}
use ziqe.Prelude.Fallible.{Returns}
use ziqe.Expected.{value}
use ziqe.Codec.{w16, w64, Order}
use ziqe.Codec.Bytes.{encode, Fits}
use ziqe.Codec.Buffers.{Source}
use ziqe.Codec.Fields.{can_read_t, has_bytes, read_t}
use ziqe.Codec.Fields.Writing.{encode_fields, encode_ints, length-encode, length-encode_ints}
use ziqe.Codec.Fields.Reading.{read_t-encode}
use ziqe.Message.{
  code, MessageWithThreadId, thread_id_fields, MessageWithThreadIds, thread_ids_fields,
  thread_ids_writable_size, read_thread_id,
}
use ziqe.Message.Types.{code-lt}

-- `writableSize` of a message with several ids is the number of bytes in which `writeTo` encodes the
-- type, the number of the ids and the ids, in either byte order.
pub writable_size-length :
    (o : Order) (m : MessageWithThreadIds)
    → thread_ids_writable_size m ≡ length (encode_fields o (thread_ids_fields m))
unfolding thread_ids_writable_size thread_ids_fields
writable_size-length o m =
    let ids = encode_ints o w64 m.thread_ids in
    let n = length m.thread_ids % 2 ^ 16 in
    omega (
      arith,
      length-append (encode o w16 (code m.type)) (encode o w16 n ++ (ids ++ [])),
      length-append (encode o w16 n) (ids ++ []),
      length-append {A = ℕ} ids [],
      length-encode o w16 (code m.type),
      length-encode o w16 n,
      length-encode_ints o w64 m.thread_ids,
    )

module _ {S : Type 0} (source : Source S) (o : Order) where
  -- A reader of the writer's byte order gets back the type and the id of a message with one 64-bit
  -- id, and stops behind it, where the source's spare bytes follow.
  pub thread_id-round_trip :
      (m : MessageWithThreadId) (rest : List ℕ) (s : S)
      → Fits w64 m.thread_id
      → source.spare ≤ length rest
      → source.Shows (encode_fields o (thread_id_fields m) ++ rest) s
      → Returns (read_t source o w16 s) (λ r.
        (r.0 ≡ code m.type)
        × Returns
            (read_thread_id source o r.1)
            (λ t. (t.0 ≡ value m.thread_id) × source.Shows rest t.1))
  unfolding thread_id_fields read_thread_id can_read_t has_bytes
  thread_id-round_trip m rest s fits room h =
      let type = encode o w16 (code m.type) in
      let id = encode o w64 m.thread_id in
      let layout : encode_fields o (thread_id_fields m) ++ rest ≡ type ++ (id ++ rest) =
        ap (λ t. (type ++ t) ++ rest) (append_nil id) ∙ append_assoc type id rest in
      let (r, e, (got, h1)) =
        read_t-encode source o w16 (code m.type) (id ++ rest) s (code-lt m.type)
          (omega (arith, length-append id rest)) (rw layout at h) in
      let ready =
        source.has_length-Shows (id ++ rest) r.1 8 h1
          (omega (arith, length-append id rest, length-encode o w64 m.thread_id)) in
      let (t, e', (got', h2)) = read_t-encode source o w64 m.thread_id rest r.1 fits room h1 in
      (r, e, (got, ((value t.0, t.1), rw (ready, e'), (ap value got', h2))))
