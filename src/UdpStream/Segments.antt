-- ===== src/UdpStream/Segments.antt =====
-- The segments that `UdpOutputVector` of Network/UdpStream.cpp writes and sends.
use ziqe.Prelude.{
  ℕ, suc, ◌+◌, ◌-◌, ◌/◌, ◌%◌, ◌^◌, ◌≤◌, ◌<◌, ◌≡◌, refl, sym, ◌∙◌, List, [], ◌∷◌, ◌++◌, Option, none,
  some, Bool, true, false, arith, ltb, leb, if◌then◌else◌, Bool-cases, inl, inr,
}
use ziqe.Prelude.Fallible.{Returns, returned}
use ziqe.Vector
use ziqe.Vector.{size_mod}
use ziqe.Vector.Elements.{filled}
use ziqe.ExtVector
use ziqe.ExtVector.{ExtVector}
use ziqe.Codec.{write_value, write_big, cut}
use ziqe.Codec.Values.{cut-digit}
use ziqe.Codec.Fields.{puts, write_int, write_one, write_each, write_t, make_room}
use ziqe.UdpMessage
use ziqe.UdpMessage.{UdpMessage, flag_last_fragment, is_last_fragment}
use ziqe.Prelude.Bits.{bit_and-zero}
use ziqe.UdpMessage.Header.{InRange, header_bytes, bit_and_four, set_last_fragment_flag-flags}
use ziqe.UdpStream.{
  UdpOutput, create_new_segment, output_stream_vector, new, rewrite_header, send_current_segment,
  sync, is_auto_send_size_passed, expand, put,
}

-- The vector after a header has been written: its four bytes, the window's begin behind them, and
-- the end where `createNewSegment` set it.
abbrev pub headed : UdpMessage → ExtVector
headed m = record { vector = filled (header_bytes m); index_begin = 4; index_end = 0 }

two_digits : (v : ℕ) → v < 256 ^ 2 → (cut v 8 ≡ v / 256 % 256) × (cut v 0 ≡ v % 256)
two_digits v h = (omega (arith, cut-digit v 8), omega (arith, cut-digit v 0))

write_empty :
    (m : UdpMessage)
    → InRange m
    → UdpMessage.write_to m (ExtVector.set_begin 0 (ExtVector.set_end 0 ExtVector.empty))
      ≡ some (headed m)
unfolding UdpMessage.write_to write_t write_each write_one write_int make_room puts write_value
    write_big ExtVector.size ExtVector.expand ExtVector.put ExtVector.increase_begin
    ExtVector.set_begin ExtVector.set_end Vector.expand Vector.resize Vector.resize_buffer
    Vector.move_old Vector.construct_n Vector.initial Vector.put Vector.at
write_empty m h =
    let f = two_digits m.flags h.flags in
    let n = two_digits m.message_number h.number in rw (f.0, f.1, n.0, n.1) refl

write_again :
    (old m : UdpMessage)
    → InRange m
    → UdpMessage.write_to m
        (record { vector = filled (header_bytes old); index_begin = 0; index_end = 0 })
      ≡ some (headed m)
unfolding UdpMessage.write_to write_t write_each write_one write_int make_room puts write_value
    write_big ExtVector.size ExtVector.expand ExtVector.put ExtVector.increase_begin Vector.expand
    Vector.resize Vector.resize_buffer Vector.move_old Vector.construct_n Vector.initial Vector.put
    Vector.at
write_again old m h =
    let f = two_digits m.flags h.flags in
    let n = two_digits m.message_number h.number in rw (f.0, f.1, n.0, n.1) refl

-- A header of two 16-bit fields whose last-fragment flag is off.
pub record Clean (m : UdpMessage) : Type 0 where
  pub in_range : InRange m
  pub not_last : is_last_fragment m ≡ false

number-Clean :
    (m : UdpMessage) (n : ℕ) → Clean m → n < 2 ^ 16 → Clean (UdpMessage.set_message_number n m)
unfolding UdpMessage.set_message_number is_last_fragment UdpMessage.is_flags_bit_on
number-Clean m n c h = record {
  in_range = record { flags = c.in_range.flags; number = omega arith };
  not_last = c.not_last;
}

cleared : (m : UdpMessage) → is_last_fragment (UdpMessage.set_last_fragment_flag false m) ≡ false
unfolding UdpMessage.set_last_fragment_flag UdpMessage.set_flag is_last_fragment
    UdpMessage.is_flags_bit_on
cleared m = rw (bit_and-zero m.flags) refl

flag-Clean : (m : UdpMessage) (on : Bool) → Clean m → Clean (UdpMessage.set_last_fragment_flag on m)
unfolding UdpMessage.set_last_fragment_flag UdpMessage.set_flag
flag-Clean m true c = record {
  in_range = record { flags = omega (arith, bit_and_four m.flags); number = c.in_range.number };
  not_last = (set_last_fragment_flag-flags m).0 ∙ c.not_last;
}
flag-Clean m false c = record {
  in_range = record { flags = omega (arith, bit_and-zero m.flags); number = c.in_range.number };
  not_last = cleared m;
}

-- What has been sent: headers alone, none of a last fragment.
abbrev pub SentHeaders : List (List (Option ℕ)) → Type 0
SentHeaders [] = Unit {0}
SentHeaders (p ∷ ps) =
    ((m : UdpMessage) × (p ≡ filled (header_bytes m)) × (is_last_fragment m ≡ false))
    × SentHeaders ps

pub record Segment (s : UdpOutput) : Type 0 where
  pub header : UdpMessage
  pub clean : Clean header
  pub vector : s.vector ≡ headed header
  pub next : Clean s.next_message
  pub sent : SentHeaders s.sent
  pub auto_send : s.auto_send_data_size + 4 ≤ size_mod

create-Segment :
    (s : UdpOutput) (m : UdpMessage)
    → s.vector ≡ headed m
    → Clean s.next_message
    → SentHeaders s.sent
    → s.auto_send_data_size + 4 ≤ size_mod
    → Returns (create_new_segment s) Segment
unfolding create_new_segment ExtVector.set_begin ExtVector.set_end
create-Segment s m at_header next sent auto_send =
    let written = write_again m s.next_message next.in_range in
    let number = (s.next_message.message_number + 1) % 2 ^ 16 in
    let after = record s {
      vector = headed s.next_message;
      next_message = UdpMessage.set_message_number number s.next_message;
    } in
    (
      after,
      rw (at_header, written) refl,
      record {
        header = s.next_message;
        clean = next;
        vector = refl;
        next = number-Clean s.next_message number next (omega arith);
        sent = sent;
        auto_send = auto_send;
      },
    )

new_message-Clean :
    (c : Bool) → Clean (UdpMessage.new (if c then UdpMessage.flag_syn else UdpMessage.flag_none) 0)
unfolding UdpMessage.new is_last_fragment UdpMessage.is_flags_bit_on
new_message-Clean true = record {
  in_range = record { flags = omega arith; number = omega arith };
  not_last = refl;
}
new_message-Clean false = record {
  in_range = record { flags = omega arith; number = omega arith };
  not_last = refl;
}

new-Segment :
    (auto : ℕ) (c : Bool)
    → auto + 4 ≤ size_mod
    → Returns (new (output_stream_vector auto) c) Segment
unfolding new output_stream_vector create_new_segment ExtVector.set_begin ExtVector.set_end
new-Segment auto c small =
    let first = UdpMessage.new (if c then UdpMessage.flag_syn else UdpMessage.flag_none) 0 in
    let clean = new_message-Clean c in
    let started : UdpOutput = record {
      vector = headed first;
      auto_send_data_size = auto;
      next_message = UdpMessage.set_message_number ((first.message_number + 1) % 2 ^ 16) first;
      sent = [];
    } in
    (
      started,
      rw (write_empty first clean.in_range) refl,
      record {
        header = first;
        clean = clean;
        vector = refl;
        next = number-Clean first ((first.message_number + 1) % 2 ^ 16) clean (omega arith);
        sent = tt;
        auto_send = small;
      },
    )

sent-snoc :
    (ps : List (List (Option ℕ))) (m : UdpMessage)
    → SentHeaders ps
    → is_last_fragment m ≡ false
    → SentHeaders (ps ++ filled (header_bytes m) ∷ [])
sent-snoc [] m h clean = ((m, refl, clean), tt)
sent-snoc (p ∷ ps) m h clean = (h.0, sent-snoc ps m h.1 clean)

rewrite-Segment : (s : UdpOutput) → Segment s → Returns (rewrite_header s) Segment
unfolding rewrite_header ExtVector.set_begin
rewrite-Segment s g =
    let last = UdpMessage.set_last_fragment_flag true s.next_message in
    let n = (last.message_number + 2 ^ 16 - 1) % 2 ^ 16 in
    let message = UdpMessage.set_message_number n last in
    let clean = number-Clean last n (flag-Clean s.next_message true g.next) (omega arith) in
    let written = write_again g.header message clean.in_range in
    let rewritten = record s {
      vector = headed message;
      next_message = UdpMessage.set_last_fragment_flag false message;
    } in
    (
      rewritten,
      rw (g.vector, written) refl,
      record {
        header = message;
        clean = clean;
        vector = refl;
        next = flag-Clean message false clean;
        sent = g.sent;
        auto_send = g.auto_send;
      },
    )

after_send :
    (s : UdpOutput)
    → Segment s
    → Returns (create_new_segment (record s { sent = s.sent ++ s.vector.vector ∷ [] })) Segment
after_send s g =
    create-Segment (record s { sent = s.sent ++ s.vector.vector ∷ [] }) g.header g.vector g.next
      (rw g.vector (sent-snoc s.sent g.header g.sent g.clean.not_last)) g.auto_send

send-Segment : (s : UdpOutput) → Segment s → Returns (send_current_segment s) Segment
unfolding send_current_segment
send-Segment s g = elim (Bool-cases (ltb (Vector.size s.vector.vector) s.auto_send_data_size)) [
  | inl short ↦
      let (t, e, h) = rewrite-Segment s g in
      let (r, e', h') = after_send t h in (r, rw (short, e) e', h')
  | inr long ↦ let (r, e', h') = after_send s g in (r, rw long e', h')
]

window_size : (s : UdpOutput) → Segment s → ExtVector.size s.vector ≡ size_mod - 4
unfolding ExtVector.size
window_size s g = rw g.vector refl

expand-sync : (n : ℕ) (s : UdpOutput) → Segment s → expand n s ≡ sync s
unfolding expand is_auto_send_size_passed
expand-sync n s g =
    let passed : leb s.auto_send_data_size (ExtVector.size s.vector) ≡ true =
      ground (arith, window_size s g, g.auto_send) in
    rw passed refl

-- The output vectors that the constructor, `sync` and `expand` lead to, where the base object has been
-- constructed from a send size of at most `2 ^ 64 - 4`.
pub data Reachable : UdpOutput → Type 0 where
  start :
      (auto : ℕ) (c : Bool) (s : UdpOutput)
      → auto + 4 ≤ size_mod
      → new (output_stream_vector auto) c ≡ some s
      → Reachable s
  synced : (s t : UdpOutput) → Reachable s → sync s ≡ some t → Reachable t
  expanded : (n : ℕ) (s t : UdpOutput) → Reachable s → expand n s ≡ some t → Reachable t

-- Every output vector that the constructor, on a base object constructed from a send size of at most
-- `2 ^ 64 - 4`, and then `sync` and `expand` lead to, with no `increaseBegin` and no write through
-- `operator[]` between them, holds the four bytes of one header and nothing else, the message to be
-- written next and that header have the last-fragment flag off, and every datagram handed to the
-- socket is such a header alone.
pub Reachable-Segment : (s : UdpOutput) → Reachable s → Segment s
unfolding sync
Reachable-Segment _ (start auto c s small e) = returned (new-Segment auto c small) e
Reachable-Segment _ (synced s t r e) = returned (send-Segment s (Reachable-Segment s r)) e
Reachable-Segment _ (expanded n s t r e) =
    let g = Reachable-Segment s r in returned (send-Segment s g) (sym (expand-sync n s g) ∙ e)

-- In an output vector that the constructor, on a base object constructed from a send size of at most
-- `2 ^ 64 - 4`, and then `sync` and `expand` lead to, writing a byte at any index below the window's
-- size is a write outside the vector.
pub put-none :
    (s : UdpOutput) (i x : ℕ) → Reachable s → i < ExtVector.size s.vector → put s i x ≡ none
unfolding put ExtVector.put Vector.put Vector.at
put-none s i x r inside =
    let g = Reachable-Segment s r in
    let sized = window_size s g in
    let index : (i + 4) % size_mod ≡ suc (suc (suc (suc i))) = omega (arith, inside, sized) in
    rw (g.vector, index) refl
