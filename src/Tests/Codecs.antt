-- ===== src/Tests/Codecs.antt =====
-- Runs of Base/FieldReader.hpp and Base/FieldWriter.hpp.
use ziqe.Prelude.{ℕ, ◌≡◌, arith, List, [], ◌∷◌, some, refl, get_elem?}
use ziqe.Prelude.Fallible.{Returns}
use ziqe.Vector.Elements.{filled}
use ziqe.ExtVector.{ExtVector, from_vector}
use ziqe.ExtVector.Window.{Shows, from_vector-Shows}
use ziqe.ExtVector.Buffer.{ext_sink, ext_source, Unread, fresh-Unread}
use ziqe.Codec.{w8, w16, w32, big, read_value}
use ziqe.Codec.Values.{read_value-decode}
use ziqe.Codec.Fields.{Field, int, ints, write_t, read_t}
use ziqe.Codec.Fields.Writing.{write_t-encode}
use ziqe.Codec.Fields.Reading.{read_t-encode}

read_value-decode_example : read_value big w32 (get_elem? (1 ∷ 2 ∷ 3 ∷ 4 ∷ [])) ≡ some 0x01020304
read_value-decode_example =
    read_value-decode big w32 (1 ∷ 2 ∷ 3 ∷ 4 ∷ []) (get_elem? (1 ∷ 2 ∷ 3 ∷ 4 ∷ [])) refl
      (omega arith) (λ i inside. refl)

abbrev two_fields : List Field
two_fields = int w16 0x0102 ∷ ints w8 (3 ∷ 4 ∷ []) ∷ []

abbrev blank : List ℕ
blank = 0 ∷ 0 ∷ 0 ∷ 0 ∷ 0 ∷ []

write_t-encode_example :
    Returns
      (write_t (ext_sink []) big two_fields (from_vector (filled blank)))
      (Shows (1 ∷ 2 ∷ 3 ∷ 4 ∷ []) (0 ∷ []) [])
write_t-encode_example =
    write_t-encode (ext_sink []) big two_fields [] blank (from_vector (filled blank)) (omega arith)
      (omega arith) (from_vector-Shows blank (omega arith))

abbrev received : ExtVector
received = from_vector (filled (1 ∷ 2 ∷ 3 ∷ 4 ∷ []))

read_t-encode_example :
    Returns (read_t ext_source big w16 received) (λ r. (r.0 ≡ 0x0102) × Unread (3 ∷ 4 ∷ []) r.1)
read_t-encode_example =
    read_t-encode ext_source big w16 0x0102 (3 ∷ 4 ∷ []) received (omega arith) (omega arith)
      (fresh-Unread (1 ∷ 2 ∷ 3 ∷ 4 ∷ []) (omega arith))
