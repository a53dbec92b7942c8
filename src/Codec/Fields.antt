-- ===== src/Codec/Fields.antt =====
-- `FieldReader` and `FieldWriter` of Base/FieldReader.hpp and Base/FieldWriter.hpp, over the
-- interface of the vector that they are given.
pub mod Writing
pub mod Reading
use ziqe.Prelude.{
  ℕ, zero, suc, ◌+◌, ◌-◌, ◌*◌, ◌%◌, List, [], ◌∷◌, Option, none, some, Bool, ltb, if◌then◌else◌,
  length,
}
use ziqe.Prelude.Fallible.{◌>>=◌}
use ziqe.Vector.{size_mod}
use ziqe.Expected.{Expected, value, error}
use ziqe.Codec.{Width, w16, byte_length, Order, read_value, write_value}
use ziqe.Codec.Buffers.{Sink, Source}

-- `ReadError`
pub data ReadError : Type 0 where
  no_enough_length : ReadError

module _ {S : Type 0} (source : Source S) where
  -- `hasBytes`, `canReadT` and `canReadVectorT`; asking may make a stream receive more data
  unfoldable pub has_bytes : ℕ → S → Bool × S
  has_bytes = source.has_length

  unfoldable pub can_read_t : Width → S → Bool × S
  can_read_t w = has_bytes (byte_length w)

  unfoldable pub can_read_vector_t : Width → ℕ → S → Bool × S
  can_read_vector_t w n = has_bytes (n * byte_length w % size_mod)

  unfoldable pub skip_bytes : ℕ → S → Option S
  skip_bytes = source.advance

  unfoldable pub read_t : Order → Width → S → Option (ℕ × S)
  read_t o w s = do
    v ← read_value o w (source.at s)
    s' ← source.advance (byte_length w) s
    some (v, s')

  unfoldable pub try_read_t : Order → Width → S → Option (Expected ℕ ReadError × S)
  try_read_t o w s =
      let (ready, s') = can_read_t w s in
      if ready
      then (do (v, s'') ← read_t o w s'; some (value v, s''))
      else some (error no_enough_length, s')

-- The arguments of `writeT`: an integer, a container of integers, or a writable message header,
-- which writes its type by a `writeT` of its own.
pub data Field : Type 0 where
  int : Width → ℕ → Field
  ints : Width → List ℕ → Field
  header : ℕ → Field

-- `mySizeOfArgs`: a sum of sizes of objects in memory, which stays below 2 ^ 64
abbrev pub size_of_field : Field → ℕ
size_of_field (int w v) = byte_length w
size_of_field (ints w vs) = length vs * byte_length w
size_of_field (header type) = 2

abbrev pub size_of_args : List Field → ℕ
size_of_args [] = 0
size_of_args (f ∷ fs) = size_of_field f + size_of_args fs

module _ {S : Type 0} (sink : Sink S) where
  -- The assignments of a value writer.
  unfoldable pub puts : List (ℕ × ℕ) → S → Option S
  puts [] s = some s
  puts ((i, x) ∷ ws) s = sink.put s i x >>= puts ws

  -- `writeOneT` of an integer
  unfoldable pub write_int : Order → Width → ℕ → S → Option S
  write_int o w v s = do s' ← puts (write_value o w v) s; sink.advance (byte_length w) s'

  -- `writeOneT` of a container
  unfoldable pub write_ints : Order → Width → List ℕ → S → Option S
  write_ints o w [] s = some s
  write_ints o w (v ∷ vs) s = write_int o w v s >>= write_ints o w vs

  -- The first step of `writeT`: make room for all the arguments.
  unfoldable pub make_room : ℕ → S → Option S
  make_room n s = if ltb (sink.size s) n then sink.expand (n - sink.size s) s else some s

  unfoldable pub write_one : Order → Field → S → Option S
  write_one o (int w v) s = write_int o w v s
  write_one o (ints w vs) s = write_ints o w vs s
  write_one o (header type) s = make_room 2 s >>= write_int o w16 type

  unfoldable pub write_each : Order → List Field → S → Option S
  write_each o [] s = some s
  write_each o (f ∷ fs) s = write_one o f s >>= write_each o fs

  unfoldable pub write_t : Order → List Field → S → Option S
  write_t o fs s = make_room (size_of_args fs) s >>= write_each o fs
