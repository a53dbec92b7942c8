-- ===== src/Stream.antt =====
-- Network/Stream.hpp and Stream.cpp: `InputStreamVector`, the bytes that a stream has received,
-- as a window on the current vector and the vectors queued behind it.
pub mod Contents
pub mod Receiving
use ziqe.Prelude.{
  ℕ, suc, ◌+◌, ◌-◌, ◌%◌, List, [], ◌∷◌, ◌++◌, Option, none, some, Bool, true, false, ltb, leb,
  if◌then◌else◌, length,
}
use ziqe.Prelude.Fallible.{◌>>=◌}
use ziqe.Expected.{Expected, value, error}
use ziqe.Vector
use ziqe.Vector.{size_mod, sub_size}
use ziqe.Vector.Elements.{filled}
use ziqe.ExtVector
use ziqe.ExtVector.{ExtVector}

-- `ReceiveError`
pub data ReceiveError : Type 0 where
  timeout parse_error other_error : ReceiveError

-- What `receiveData` returns.
abbrev pub Arrival : Type 0
Arrival = Expected (List ℕ) ReceiveError

-- The members of the object.
pub record Queue : Type 0 where
  pub current : ExtVector
  pub vectors : List (List (Option ℕ))
  pub vectors_size : ℕ

-- `arrivals` is what the coming calls of `receiveData` return, in order; after the last of them
-- the stream receives nothing more, and the call fails.
pub record InputStream : Type 0 where
  pub queue : Queue
  pub arrivals : List Arrival

-- The constructor.
unfoldable pub new : List Arrival → InputStream
new arrivals = record {
  queue = record { current = ExtVector.empty; vectors = []; vectors_size = 0 };
  arrivals = arrivals;
}

-- `increaseBegin`. The recursion is on the queued vectors: each round of the loop but the last
-- takes one of them, and `front ()` of an empty list reads through a null pointer.
unfoldable pub skip : ℕ → ExtVector → List (List (Option ℕ)) → ℕ → Option Queue
skip how_much current [] total =
    if leb (ExtVector.size current) how_much
    then none
    else some (record {
      current = ExtVector.increase_begin how_much current;
      vectors = [];
      vectors_size = sub_size total how_much;
    })
skip how_much current (v ∷ vs) total =
    let n = ExtVector.size current in
    let next = skip (how_much - n) (ExtVector.from_vector v) vs (sub_size total n) in
    if leb n how_much
    then next
    else some (record {
      current = ExtVector.increase_begin how_much current;
      vectors = v ∷ vs;
      vectors_size = sub_size total how_much;
    })

unfoldable pub increase_begin : ℕ → InputStream → Option InputStream
increase_begin how_much s = do
  q ← skip how_much s.queue.current s.queue.vectors s.queue.vectors_size
  some (record s { queue = q })

-- The loop of `operator[]` over the queued vectors; past the last of them it returns 0.
unfoldable pub find_at : ℕ → List (List (Option ℕ)) → Option ℕ
find_at i [] = some 0
find_at i (v ∷ vs) =
    let next = find_at (i - length v) vs in if ltb i (length v) then Vector.at v i else next

-- `operator[]`
unfoldable pub at : InputStream → ℕ → Option ℕ
at s i =
    let n = ExtVector.size s.queue.current in
    if leb n i then find_at (i - n) s.queue.vectors else ExtVector.at s.queue.current i

-- `emplace_back` of received bytes and their size, as `receiveNewData` does it
unfoldable pub enqueue : List ℕ → Queue → Queue
enqueue bytes q = record q {
  vectors = q.vectors ++ filled bytes ∷ [];
  vectors_size = (q.vectors_size + length bytes) % size_mod;
}

-- `receiveNewData` and the loop of `hasLength`, by recursion on the arrivals
unfoldable pub wait_for : ℕ → Queue → List Arrival → Bool × InputStream
wait_for n q [] = (leb n q.vectors_size, record { queue = q; arrivals = [] })
wait_for n q (error e ∷ later) =
    if ltb q.vectors_size n
    then (false, record { queue = q; arrivals = later })
    else (true, record { queue = q; arrivals = error e ∷ later })
wait_for n q (value bytes ∷ later) =
    let more = wait_for n (enqueue bytes q) later in
    if ltb q.vectors_size n
    then more
    else (true, record { queue = q; arrivals = value bytes ∷ later })

unfoldable pub has_length : ℕ → InputStream → Bool × InputStream
has_length n s = wait_for n s.queue s.arrivals
