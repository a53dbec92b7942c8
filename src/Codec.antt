-- ===== src/Codec.antt =====
-- Base/FieldReader.hpp and Base/FieldWriter.hpp: integers of a fixed width, read from a source of
-- bytes and written to a sink of bytes, in either byte order.
pub mod Bytes
pub mod Buffers
pub mod Values
pub mod Fields
use ziqe.Prelude.{
  ℕ, zero, suc, ◌+◌, ◌-◌, ◌*◌, ◌%◌, ◌^◌, List, [], ◌∷◌, Option, none, some, Bool, true, false, ltb,
  if◌then◌else◌, length, bit_and, bit_or, ◌⊎◌, inl, inr,
}
use ziqe.Prelude.Bits.{◌<<<◌, ◌>>>◌}
use ziqe.Prelude.Fallible.{◌>>=◌}
use ziqe.Vector.{size_mod}

pub data Width : Type 0 where
  w8 w16 w32 w64 : Width

-- `sizeof (T)`
abbrev pub byte_length : Width → ℕ
byte_length w8 = 1
byte_length w16 = 2
byte_length w32 = 4
byte_length w64 = 8

pub data Order : Type 0 where
  little big : Order

-- The disjunctions of the readers, the highest byte first. Each byte is below 256, so that no
-- shift loses a bit.
unfoldable pub join2 : ℕ → ℕ → ℕ
join2 b1 b0 = bit_or (b1 <<< 8) b0 % 2 ^ 16

unfoldable pub join4 : (b3 b2 b1 b0 : ℕ) → ℕ
join4 b3 b2 b1 b0 = bit_or (bit_or (bit_or (b3 <<< 24) (b2 <<< 16)) (b1 <<< 8)) b0

unfoldable pub join8 : (b7 b6 b5 b4 b3 b2 b1 b0 : ℕ) → ℕ
join8 b7 b6 b5 b4 b3 b2 b1 b0 =
    let high = bit_or (bit_or (bit_or (b7 <<< 56) (b6 <<< 48)) (b5 <<< 40)) (b4 <<< 32) in
    bit_or (bit_or (bit_or (bit_or high (b3 <<< 24)) (b2 <<< 16)) (b1 <<< 8)) b0

-- `LittleEndianValueReader::readValue`, `at` being the vector's `operator[]`
unfoldable pub read_little : Width → (ℕ → Option ℕ) → Option ℕ
read_little w8 at = at 0
read_little w16 at = do b1 ← at 1; b0 ← at 0; some (join2 b1 b0)
read_little w32 at = do b3 ← at 3; b2 ← at 2; b1 ← at 1; b0 ← at 0; some (join4 b3 b2 b1 b0)
read_little w64 at = do
  b7 ← at 7
  b6 ← at 6
  b5 ← at 5
  b4 ← at 4
  b3 ← at 3
  b2 ← at 2
  b1 ← at 1
  b0 ← at 0
  some (join8 b7 b6 b5 b4 b3 b2 b1 b0)

-- `BigEndianValueReader::readValue`
unfoldable pub read_big : Width → (ℕ → Option ℕ) → Option ℕ
read_big w8 at = at 0
read_big w16 at = do b1 ← at 0; b0 ← at 1; some (join2 b1 b0)
read_big w32 at = do b3 ← at 0; b2 ← at 1; b1 ← at 2; b0 ← at 3; some (join4 b3 b2 b1 b0)
read_big w64 at = do
  b7 ← at 0
  b6 ← at 1
  b5 ← at 2
  b4 ← at 3
  b3 ← at 4
  b2 ← at 5
  b1 ← at 6
  b0 ← at 7
  some (join8 b7 b6 b5 b4 b3 b2 b1 b0)

unfoldable pub read_value : Order → Width → (ℕ → Option ℕ) → Option ℕ
read_value little = read_little
read_value big = read_big

-- `static_cast<uint8_t>((value & (0xff << k)) >> k)`
unfoldable pub cut : ℕ → ℕ → ℕ
cut v k = (bit_and v (0xff <<< k) >>> k) % 256

-- The assignments of `BigEndianWriter::write`, each an index and a byte.
unfoldable pub write_big : Width → ℕ → List (ℕ × ℕ)
write_big w8 v = (0, v) ∷ []
write_big w16 v = (0, cut v 8) ∷ (1, cut v 0) ∷ []
write_big w32 v = (0, cut v 24) ∷ (1, cut v 16) ∷ (2, cut v 8) ∷ (3, cut v 0) ∷ []
write_big w64 v =
    (0, cut v 56)
    ∷ (1, cut v 48)
    ∷ (2, cut v 40)
    ∷ (3, cut v 32)
    ∷ (4, cut v 24)
    ∷ (5, cut v 16)
    ∷ (6, cut v 8)
    ∷ (7, cut v 0)
    ∷ []

-- The assignments of `LittleEndianWriter::write`.
unfoldable pub write_little : Width → ℕ → List (ℕ × ℕ)
write_little w8 v = (0, v) ∷ []
write_little w16 v = (1, cut v 8) ∷ (0, cut v 0) ∷ []
write_little w32 v = (3, cut v 24) ∷ (2, cut v 16) ∷ (1, cut v 8) ∷ (0, cut v 0) ∷ []
write_little w64 v =
    (7, cut v 56)
    ∷ (6, cut v 48)
    ∷ (5, cut v 40)
    ∷ (4, cut v 32)
    ∷ (3, cut v 24)
    ∷ (2, cut v 16)
    ∷ (1, cut v 8)
    ∷ (0, cut v 0)
    ∷ []

unfoldable pub write_value : Order → Width → ℕ → List (ℕ × ℕ)
write_value little = write_little
write_value big = write_big
