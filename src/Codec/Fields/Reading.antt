-- ===== src/Codec/Fields/Reading.antt =====
-- `readT`, `tryReadT` and the vector readers of Base/FieldReader.hpp give back what was encoded.
use ziqe.Prelude.{
  ℕ, zero, suc, ◌≤◌, ◌<◌, ◌≡◌, refl, ◌∙◌, List, [], ◌∷◌, ◌++◌, some, arith, length, get_elem?,
  length-append, drop_append, false,
}
use ziqe.Prelude.Fallible.{Returns}
use ziqe.Expected.{error}
use ziqe.Codec.{Width, w8, w16, w32, w64, byte_length, Order, little, big}
use ziqe.Codec.Bytes.{encode, decode, Fits}
use ziqe.Codec.Buffers.{Source}
use ziqe.Codec.Values.{IsBytes, read_value-decode, decode-encode}
use ziqe.Codec.Fields.{no_enough_length, has_bytes, can_read_t, read_t, try_read_t}
use ziqe.Codec.Fields.Writing.{length-encode}

pub encode-IsBytes : (o : Order) (w : Width) (v : ℕ) → Fits w v → IsBytes (encode o w v)
encode-IsBytes little w8 v h = omega arith
encode-IsBytes little w16 v h = omega arith
encode-IsBytes little w32 v h = omega arith
encode-IsBytes little w64 v h = omega arith
encode-IsBytes big w8 v h = omega arith
encode-IsBytes big w16 v h = omega arith
encode-IsBytes big w32 v h = omega arith
encode-IsBytes big w64 v h = omega arith

pub elem_front :
    (front rest : List ℕ) (i : ℕ)
    → i < length front
    → get_elem? (front ++ rest) i ≡ get_elem? front i
elem_front [] rest i h = absurd (omega arith)
elem_front (a ∷ front) rest zero h = refl
elem_front (a ∷ front) rest (suc i) h = elem_front front rest i (omega arith)

module _ {S : Type 0} (source : Source S) where
  -- One value is read by its own byte order or the other: what comes out is the number that the
  -- first bytes stand for in the reader's order.
  pub read_t-decode :
      (o : Order) (w : Width) (front rest : List ℕ) (s : S)
      → length front ≡ byte_length w
      → IsBytes front
      → source.spare ≤ length rest
      → source.Shows (front ++ rest) s
      → Returns (read_t source o w s) (λ r. (r.0 ≡ decode o front) × source.Shows rest r.1)
  unfolding read_t
  read_t-decode o w front rest s n bytes room h =
      let total = length-append front rest in
      let got = read_value-decode o w front (source.at s) n bytes (λ i inside.
        source.at-Shows (front ++ rest) s i h (omega (arith, total))
        ∙ elem_front front rest i inside) in
      let (s', e, h') =
        source.advance-Shows (front ++ rest) s (byte_length w) h (omega (arith, total)) in
      let dropped = rw n at (drop_append front rest) in
      ((decode o front, s'), rw (got, e), (refl, rw dropped at h'))

  -- `readT` gives back a value that was encoded in its byte order and stops behind it, where the
  -- spare bytes that the source needs follow.
  pub read_t-encode :
      (o : Order) (w : Width) (v : ℕ) (rest : List ℕ) (s : S)
      → Fits w v
      → source.spare ≤ length rest
      → source.Shows (encode o w v ++ rest) s
      → Returns (read_t source o w s) (λ r. (r.0 ≡ v) × source.Shows rest r.1)
  read_t-encode o w v rest s fits room h =
      let (r, e, (got, h')) =
        read_t-decode o w (encode o w v) rest s (length-encode o w v) (encode-IsBytes o w v fits)
          room h in
      (r, e, (got ∙ decode-encode o w v fits, h'))

  -- `tryReadT` on a source without enough bytes reports that and reads nothing.
  pub try_read_t-short :
      (o : Order) (w : Width) (s s' : S)
      → source.has_length (byte_length w) s ≡ (false, s')
      → try_read_t source o w s ≡ some (error no_enough_length, s')
  unfolding try_read_t can_read_t has_bytes
  try_read_t-short o w s s' short = rw short
