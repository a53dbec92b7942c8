-- ===== src/Stream/Receiving.antt =====
-- `hasLength` of Network/Stream.cpp, which receives until enough bytes are there, and
-- `InputStreamVector` as the source of a `FieldReader`.
use mathlib.Core.List.{append_assoc}
use mathlib.Core.Path.{subst}
use ziqe.Prelude.{
  ℕ, ◌+◌, ◌≤◌, ◌<◌, ◌≡◌, refl, sym, ◌∙◌, ap, List, [], ◌∷◌, ◌++◌, map, Bool, true, false, arith,
  length, length-append, append_nil, Bool-cases, inl, inr, leb, ltb,
}
use ziqe.Vector.{size_mod}
use ziqe.Vector.Elements.{filled}
use ziqe.Expected.{value, error}
use ziqe.Codec.Buffers.{Source}
use ziqe.Stream.{
  Queue, InputStream, Arrival, new, increase_begin, at, enqueue, wait_for, has_length,
}
use ziqe.Stream.Contents.{concat, Shown, Unread, at-Unread, advance-Unread}

-- The bytes that all the arrivals bring.
abbrev pub arriving : List Arrival → ℕ
arriving [] = 0
arriving (value bytes ∷ later) = length bytes + arriving later
arriving (error e ∷ later) = arriving later

-- The bytes that arrive before the first error.
abbrev pub before_error : List Arrival → List ℕ
before_error [] = []
before_error (value bytes ∷ later) = bytes ++ before_error later
before_error (error e ∷ later) = []

-- Nothing comes after an error.
abbrev pub ErrorLast : List Arrival → Type 0
ErrorLast [] = Unit
ErrorLast (value bytes ∷ later) = ErrorLast later
ErrorLast (error e ∷ later) = later ≡ []

-- A new stream has no unread bytes.
pub new-Unread : (arrivals : List Arrival) → Unread [] (new arrivals)
unfolding new
new-Unread arrivals = record {
  front = [];
  behind = [];
  bytes = refl;
  holds = record {
    past = [];
    rest = [];
    window = record { holds = refl; begins = refl; ends = refl; fits = omega arith };
    queued = refl;
    counted = omega arith;
    small = omega arith;
  };
}

concat-snoc : (vs : List (List ℕ)) (v : List ℕ) → concat (vs ++ v ∷ []) ≡ concat vs ++ v
concat-snoc [] v = append_nil v
concat-snoc (w ∷ vs) v = ap (λ t. w ++ t) (concat-snoc vs v) ∙ sym (append_assoc w (concat vs) v)

map-snoc :
    (vs : List (List ℕ)) (v : List ℕ) → map filled (vs ++ v ∷ []) ≡ map filled vs ++ filled v ∷ []
map-snoc [] v = refl
map-snoc (w ∷ vs) v = ap (λ t. filled w ∷ t) (map-snoc vs v)

enqueue-Shown :
    (ahead bytes : List ℕ) (q : Queue)
    → Shown ahead q
    → length ahead + length bytes < size_mod
    → Shown (ahead ++ bytes) (enqueue bytes q)
unfolding enqueue
enqueue-Shown ahead bytes q u room =
    let h = u.holds in
    let joined = concat-snoc u.behind bytes in
    let size : length ahead ≡ length u.front + length (concat u.behind) =
      rw u.bytes (length-append u.front (concat u.behind)) in
    let total : length (concat (u.behind ++ bytes ∷ [])) ≡ length (concat u.behind) + length bytes =
      rw joined (length-append (concat u.behind) bytes) in
    record {
      front = u.front;
      behind = u.behind ++ bytes ∷ [];
      bytes =
          ap (λ t. t ++ bytes) u.bytes
          ∙ (append_assoc u.front (concat u.behind) bytes ∙ ap (λ t. u.front ++ t) (sym joined));
      holds = record {
        past = h.past;
        rest = h.rest;
        window = h.window;
        queued = ap (λ t. t ++ filled bytes ∷ []) h.queued ∙ sym (map-snoc u.behind bytes);
        counted = omega (arith, h.counted, total, h.small, size, room);
        small = omega (arith, total, size);
      };
    }

Shown-size : (ahead : List ℕ) (q : Queue) → Shown ahead q → q.vectors_size ≡ length ahead
Shown-size ahead q u =
    let size : length ahead ≡ length u.front + length (concat u.behind) =
      rw u.bytes (length-append u.front (concat u.behind)) in
    omega (arith, u.holds.counted, size)

-- What asking for `n` bytes does: some of the arrivals are taken, the first ones first and none after
-- an error, and the bytes that they bring follow the unread ones; the answer says whether there are
-- `n` of them. Where there are already, nothing is taken.
pub record Asked (n : ℕ) (ahead : List ℕ) (arrivals : List Arrival) (r : Bool × InputStream)
    : Type 0 where
  pub taken : List Arrival
  pub order : arrivals ≡ taken ++ r.1.arrivals
  pub stops : ErrorLast taken
  pub unread : Unread (ahead ++ before_error taken) r.1
  pub answer : r.0 ≡ leb n (length ahead + length (before_error taken))
  pub idle : n ≤ length ahead → taken ≡ []
  pub patient : r.0 ≡ leb n (length ahead + length (before_error arrivals))

stays :
    (n : ℕ) (ahead : List ℕ) (q : Queue) (taken later : List Arrival) (b : Bool)
    → Shown ahead q
    → before_error taken ≡ []
    → ErrorLast taken
    → (n ≤ length ahead → taken ≡ [])
    → b ≡ leb n (length ahead)
    → b ≡ leb n (length ahead + length (before_error (taken ++ later)))
    → Asked n ahead (taken ++ later) (b, record { queue = q; arrivals = later })
stays n ahead q taken later b u nothing stops idle now waited = record {
  taken = taken;
  order = refl;
  stops = stops;
  unread = rw nothing (subst (λ t. Shown t q) (sym (append_nil ahead)) u);
  answer = rw nothing (ground (arith, now));
  patient = waited;
  idle = idle;
}

wait_for-Asked :
    (arrivals : List Arrival) (n : ℕ) (ahead : List ℕ) (q : Queue)
    → Shown ahead q
    → length ahead + arriving arrivals < size_mod
    → Asked n ahead arrivals (wait_for n q arrivals)
unfolding wait_for
wait_for-Asked [] n ahead q u room =
    let size = Shown-size ahead q u in
    stays n ahead q [] [] _ u refl tt (λ h. refl) (ap (leb n) size) (ground (arith, size))
wait_for-Asked (error e ∷ later) n ahead q u room =
    let size = Shown-size ahead q u in
    elim (Bool-cases (ltb q.vectors_size n)) [
      | inl short ↦ rw short (
          stays n ahead q (error e ∷ []) later false u refl refl
            (λ h. absurd (ground (arith, size, short, h))) (ground (arith, size, short))
            (ground (arith, size, short)))
      | inr enough ↦ rw enough (
          stays n ahead q [] (error e ∷ later) true u refl tt (λ h. refl)
            (ground (arith, size, enough)) (ground (arith, size, enough)))
    ]
wait_for-Asked (value bytes ∷ later) n ahead q u room =
    let size = Shown-size ahead q u in
    elim (Bool-cases (ltb q.vectors_size n)) [
      | inl short ↦
          let joined = length-append ahead bytes in
          let more =
            wait_for-Asked later n (ahead ++ bytes) (enqueue bytes q)
              (enqueue-Shown ahead bytes q u (omega arith)) (omega (arith, joined)) in
          let both = length-append bytes (before_error later) in
          let all = length-append bytes (before_error more.taken) in
          rw short (record {
            taken = value bytes ∷ more.taken;
            order = ap (λ t. value bytes ∷ t) more.order;
            stops = more.stops;
            idle = λ h. absurd (ground (arith, size, short, h));
            unread =
                subst (λ t. Unread t (wait_for n (enqueue bytes q) later).1)
                  (append_assoc ahead bytes (before_error more.taken)) more.unread;
            answer = more.answer ∙ ap (leb n) (omega (arith, joined, all));
            patient = more.patient ∙ ap (leb n) (omega (arith, joined, both));
          })
      | inr enough ↦ rw enough (
          stays n ahead q [] (value bytes ∷ later) true u refl tt (λ h. refl)
            (ground (arith, size, enough)) (ground (arith, size, enough)))
    ]

-- `hasLength n` of a stream whose bytes, with those of all arrivals, are fewer than `2 ^ 64`, takes
-- some of the arrivals, the first ones first, none after an error and none where `n` bytes are unread
-- already, and leaves the others in their order. It keeps every unread byte and appends the bytes of
-- the taken arrivals, in order; it answers whether `n` bytes are there then, which is whether the
-- unread bytes and those that arrive before the first error are together at least `n`.
pub has_length-Asked :
    (n : ℕ) (ahead : List ℕ) (s : InputStream)
    → Unread ahead s
    → length ahead + arriving s.arrivals < size_mod
    → Asked n ahead s.arrivals (has_length n s)
unfolding has_length
has_length-Asked n ahead s u room = wait_for-Asked s.arrivals n ahead s.queue u room

enough_waits :
    (arrivals : List Arrival) (n : ℕ) (ahead : List ℕ) (q : Queue)
    → Shown ahead q
    → n ≤ length ahead
    → wait_for n q arrivals ≡ (true, record { queue = q; arrivals = arrivals })
unfolding wait_for
enough_waits [] n ahead q u h =
    let enough : leb n q.vectors_size ≡ true = ground (arith, Shown-size ahead q u) in
    rw enough refl
enough_waits (error e ∷ later) n ahead q u h =
    let enough : ltb q.vectors_size n ≡ false = ground (arith, Shown-size ahead q u) in
    rw enough refl
enough_waits (value bytes ∷ later) n ahead q u h =
    let enough : ltb q.vectors_size n ≡ false = ground (arith, Shown-size ahead q u) in
    rw enough refl

pub has_length-enough :
    (ahead : List ℕ) (s : InputStream) (n : ℕ)
    → Unread ahead s
    → n ≤ length ahead
    → has_length n s ≡ (true, s)
unfolding has_length
has_length-enough ahead s n u h = enough_waits s.arrivals n ahead s.queue u h

-- A stream under a `FieldReader`. The cursor cannot pass the last received byte, so one byte has
-- to stay behind the fields.
abbrev pub stream_source : Source InputStream
stream_source = record {
  at = at;
  advance = increase_begin;
  has_length = has_length;
  spare = 1;
  Shows = Unread;
  at-Shows = λ ahead s i h inside. at-Unread ahead s i h inside;
  advance-Shows = λ ahead s n h inside. advance-Unread ahead s n h inside;
  has_length-Shows = λ ahead s n h enough. has_length-enough ahead s n h enough;
}
