-- ===== src/ExtVector/Buffer.antt =====
-- Base/ExtendedVector.hpp as the vector under a `FieldWriter` or a `FieldReader`.
use ziqe.Prelude.{
  ℕ, ◌+◌, ◌≤◌, ◌<◌, ◌≡◌, refl, List, ◌++◌, Option, some, Bool, true, arith, length, set, take, drop,
  get_elem?, [],
}
use ziqe.Vector.{size_mod}
use ziqe.Vector.Elements.{filled}
use ziqe.Prelude.Fallible.{Returns}
use ziqe.Codec.Buffers.{Sink, Source}
use ziqe.ExtVector.{ExtVector, from_vector, size, has_length, at, put, increase_begin, expand}
use ziqe.ExtVector.Window.{
  Shows, from_vector-Shows, size-Shows, at-Shows, put-Shows, increase_begin-Shows,
}

abbrev pub advance : ℕ → ExtVector → Option ExtVector
advance n v = some (increase_begin n v)

module _ (past ahead rest : List ℕ) (v : ExtVector) where
  pub law_size : Shows past ahead rest v → size v ≡ length ahead
  law_size h = size-Shows h

  pub law_put :
      (i x : ℕ)
      → Shows past ahead rest v
      → i < length ahead
      → Returns (put v i x) (Shows past (set ahead i x) rest)
  law_put i x h inside = put-Shows h i x inside

  pub law_advance :
      (n : ℕ)
      → Shows past ahead rest v
      → n ≤ length ahead
      → Returns (advance n v) (Shows (past ++ take n ahead) (drop n ahead) rest)
  law_advance n h inside = (increase_begin n v, refl, increase_begin-Shows h n inside)

-- The bytes `rest` behind the window stay as they are.
abbrev pub ext_sink : List ℕ → Sink ExtVector
ext_sink rest = record {
  size = size;
  expand = λ n v. some (expand n v);
  put = put;
  advance = advance;
  Shows = λ past ahead v. Shows past ahead rest v;
  size-Shows = λ past ahead v h. law_size past ahead rest v h;
  put-Shows = λ past ahead v i x h inside. law_put past ahead rest v i x h inside;
  advance-Shows = λ past ahead v n h inside. law_advance past ahead rest v n h inside;
}

-- What a reader knows of the window: the bytes ahead.
abbrev pub Unread : List ℕ → ExtVector → Type 0
Unread ahead v = (past : List ℕ) × (rest : List ℕ) × Shows past ahead rest v

pub fresh-Unread :
    (bytes : List ℕ) → length bytes < size_mod → Unread bytes (from_vector (filled bytes))
fresh-Unread bytes h = ([], [], from_vector-Shows bytes h)

module _ (ahead : List ℕ) (v : ExtVector) where
  pub read_at : (i : ℕ) → Unread ahead v → i < length ahead → at v i ≡ get_elem? ahead i
  read_at i (past, rest, h) inside = at-Shows h i inside

  pub read_advance :
      (n : ℕ)
      → Unread ahead v
      → n + 0 ≤ length ahead
      → Returns (advance n v) (Unread (drop n ahead))
  read_advance n (past, rest, h) inside = (
    increase_begin n v,
    refl,
    (past ++ take n ahead, rest, increase_begin-Shows h n (omega arith)),
  )

  pub read_has_length :
      (n : ℕ)
      → Unread ahead v
      → n ≤ length ahead
      → ◌≡◌ {A = Bool × ExtVector} (has_length n v, v) (true, v)
  unfolding has_length
  read_has_length n (past, rest, h) inside = ground (arith, size-Shows h)

abbrev pub ext_source : Source ExtVector
ext_source = record {
  at = at;
  advance = advance;
  has_length = λ n v. (has_length n v, v);
  spare = 0;
  Shows = Unread;
  at-Shows = λ ahead v i h inside. read_at ahead v i h inside;
  advance-Shows = λ ahead v n h inside. read_advance ahead v n h inside;
  has_length-Shows = λ ahead v n h inside. read_has_length ahead v n h inside;
}
