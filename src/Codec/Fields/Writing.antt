-- ===== src/Codec/Fields/Writing.antt =====
-- `writeT` of Base/FieldWriter.hpp writes the encodings of its arguments in order.
use mathlib.Core.List.{append_assoc}
use ziqe.Prelude.{
  ℕ, suc, ◌+◌, ◌*◌, ◌≤◌, ◌<◌, ◌≡◌, refl, sym, ◌∙◌, ap, List, [], ◌∷◌, ◌++◌, some, arith, length,
  set, take, drop, length-append, length-set, take_append, drop_append, length-take, length-drop,
  take-append-drop, append_nil, drop-drop,
}
use ziqe.Prelude.Fallible.{Returns}
use ziqe.Codec.{
  Width, w8, w16, w32, w64, byte_length, Order, little, big, write_value, write_little, write_big,
}
use ziqe.Codec.Bytes.{encode, Fits}
use ziqe.Codec.Buffers.{Sink}
use ziqe.Codec.Values.{apply_writes, apply_writes-encode}
use ziqe.Codec.Fields.{
  Field, int, ints, header, size_of_field, size_of_args, puts, write_int, write_ints, make_room,
  write_one, write_each, write_t,
}

-- The bytes of the arguments in memory order.
abbrev pub encode_ints : Order → Width → List ℕ → List ℕ
encode_ints o w [] = []
encode_ints o w (v ∷ vs) = encode o w v ++ encode_ints o w vs

abbrev pub encode_field : Order → Field → List ℕ
encode_field o (int w v) = encode o w v
encode_field o (ints w vs) = encode_ints o w vs
encode_field o (header type) = encode o w16 type

abbrev pub encode_fields : Order → List Field → List ℕ
encode_fields o [] = []
encode_fields o (f ∷ fs) = encode_field o f ++ encode_fields o fs

abbrev pub AllFit : Width → List ℕ → Type 0
AllFit w [] = Unit {0}
AllFit w (v ∷ vs) = Fits w v × AllFit w vs

abbrev pub FieldFits : Field → Type 0
FieldFits (int w v) = Fits w v
FieldFits (ints w vs) = AllFit w vs
FieldFits (header type) = Fits w16 type

abbrev pub FieldsFit : List Field → Type 0
FieldsFit [] = Unit {0}
FieldsFit (f ∷ fs) = FieldFits f × FieldsFit fs

abbrev Below : ℕ → List (ℕ × ℕ) → Type 0
Below n [] = Unit {0}
Below n ((i, x) ∷ ws) = (i < n) × Below n ws

write_value-Below :
    (o : Order) (w : Width) (v n : ℕ) → byte_length w ≤ n → Below n (write_value o w v)
unfolding write_value write_little write_big
write_value-Below little w8 v n h = omega arith
write_value-Below little w16 v n h = omega arith
write_value-Below little w32 v n h = omega arith
write_value-Below little w64 v n h = omega arith
write_value-Below big w8 v n h = omega arith
write_value-Below big w16 v n h = omega arith
write_value-Below big w32 v n h = omega arith
write_value-Below big w64 v n h = omega arith

pub length-encode : (o : Order) (w : Width) (v : ℕ) → length (encode o w v) ≡ byte_length w
length-encode little w8 v = refl
length-encode little w16 v = refl
length-encode little w32 v = refl
length-encode little w64 v = refl
length-encode big w8 v = refl
length-encode big w16 v = refl
length-encode big w32 v = refl
length-encode big w64 v = refl

pub length-encode_ints :
    (o : Order) (w : Width) (vs : List ℕ) → length (encode_ints o w vs) ≡ length vs * byte_length w
length-encode_ints o w [] = omega arith
length-encode_ints o w (v ∷ vs) = omega (
  arith,
  length-append (encode o w v) (encode_ints o w vs),
  length-encode o w v,
  length-encode_ints o w vs,
)

module _ {S : Type 0} (sink : Sink S) where
  puts-Shows :
      (ws : List (ℕ × ℕ)) (past ahead : List ℕ) (s : S)
      → sink.Shows past ahead s
      → Below (length ahead) ws
      → Returns (puts sink ws s) (sink.Shows past (apply_writes ws ahead))
  unfolding puts
  puts-Shows [] past ahead s h inside = (s, refl, h)
  puts-Shows ((i, x) ∷ ws) past ahead s h inside =
      let (s', e, h') = sink.put-Shows past ahead s i x h inside.0 in
      let (t, e', h'') =
        puts-Shows ws past (set ahead i x) s' h' (rw (length-set ahead i x) inside.1) in
      (t, rw e e', h'')

  write_int-Shows :
      (o : Order) (w : Width) (v : ℕ) (past ahead : List ℕ) (s : S)
      → Fits w v
      → byte_length w ≤ length ahead
      → sink.Shows past ahead s
      → Returns
          (write_int sink o w v s)
          (sink.Shows (past ++ encode o w v) (drop (byte_length w) ahead))
  unfolding write_int
  write_int-Shows o w v past ahead s fits room h =
      let n = byte_length w in
      let rest = drop n ahead in
      let new = encode o w v ++ rest in
      let len = length-encode o w v in
      let (s', e, h') =
        puts-Shows (write_value o w v) past ahead s h
          (write_value-Below o w v (length ahead) room) in
      let written : apply_writes (write_value o w v) ahead ≡ new =
        ap (apply_writes (write_value o w v)) (sym (take-append-drop n ahead))
        ∙ apply_writes-encode o w v (take n ahead) rest fits (omega (arith, length-take n ahead)) in
      let (t, e', h'') =
        sink.advance-Shows past new s' n (rw written at h')
          (omega (arith, len, length-append (encode o w v) rest)) in
      let passed : take n new ≡ encode o w v = rw len at (take_append (encode o w v) rest) in
      let left : drop n new ≡ rest = rw len at (drop_append (encode o w v) rest) in
      (t, rw e e', rw (passed, left) at h'')

  write_ints-Shows :
      (o : Order) (w : Width) (vs past ahead : List ℕ) (s : S)
      → AllFit w vs
      → length vs * byte_length w ≤ length ahead
      → sink.Shows past ahead s
      → Returns
          (write_ints sink o w vs s)
          (sink.Shows (past ++ encode_ints o w vs) (drop (length vs * byte_length w) ahead))
  unfolding write_ints
  write_ints-Shows o w [] past ahead s fits room h =
      let none_taken : 0 * byte_length w ≡ 0 = omega arith in
      (s, refl, rw (append_nil past, none_taken) h)
  write_ints-Shows o w (v ∷ vs) past ahead s fits room h =
      let n = byte_length w in
      let (s', e, h') = write_int-Shows o w v past ahead s fits.0 (omega arith) h in
      let (t, e', h'') =
        write_ints-Shows o w vs (past ++ encode o w v) (drop n ahead) s' fits.1
          (omega (arith, length-drop n ahead)) h' in
      let total : n + length vs * n ≡ suc (length vs) * n = omega arith in
      (
        t,
        rw e e',
        rw
            (
              append_assoc past (encode o w v) (encode_ints o w vs),
              drop-drop n (length vs * n) ahead,
              total,
            )
            at h'',
      )

  make_room-id :
      (past ahead : List ℕ) (s : S) (n : ℕ)
      → sink.Shows past ahead s
      → n ≤ length ahead
      → make_room sink n s ≡ some s
  unfolding make_room
  make_room-id past ahead s n h room = ground (arith, sink.size-Shows past ahead s h)

  write_one-Shows :
      (o : Order) (f : Field) (past ahead : List ℕ) (s : S)
      → FieldFits f
      → size_of_field f ≤ length ahead
      → sink.Shows past ahead s
      → Returns
          (write_one sink o f s)
          (sink.Shows (past ++ encode_field o f) (drop (size_of_field f) ahead))
  unfolding write_one
  write_one-Shows o (int w v) past ahead s fits room h =
      write_int-Shows o w v past ahead s fits room h
  write_one-Shows o (ints w vs) past ahead s fits room h =
      write_ints-Shows o w vs past ahead s fits room h
  write_one-Shows o (header type) past ahead s fits room h =
      rw (make_room-id past ahead s 2 h room) (write_int-Shows o w16 type past ahead s fits room h)

  write_each-Shows :
      (o : Order) (fs : List Field) (past ahead : List ℕ) (s : S)
      → FieldsFit fs
      → size_of_args fs ≤ length ahead
      → sink.Shows past ahead s
      → Returns
          (write_each sink o fs s)
          (sink.Shows (past ++ encode_fields o fs) (drop (size_of_args fs) ahead))
  unfolding write_each
  write_each-Shows o [] past ahead s fits room h = (s, refl, rw (append_nil past) h)
  write_each-Shows o (f ∷ fs) past ahead s fits room h =
      let n = size_of_field f in
      let (s', e, h') = write_one-Shows o f past ahead s fits.0 (omega arith) h in
      let (t, e', h'') =
        write_each-Shows o fs (past ++ encode_field o f) (drop n ahead) s' fits.1
          (omega (arith, length-drop n ahead)) h' in
      (
        t,
        rw e e',
        rw
            (
              append_assoc past (encode_field o f) (encode_fields o fs),
              drop-drop n (size_of_args fs) ahead,
            )
            at h'',
      )

  -- With room for all its arguments, which fit their types, `writeT` writes their encodings one
  -- after another, moves the cursor behind them and leaves the bytes that follow as they were.
  pub write_t-encode :
      (o : Order) (fs : List Field) (past ahead : List ℕ) (s : S)
      → FieldsFit fs
      → size_of_args fs ≤ length ahead
      → sink.Shows past ahead s
      → Returns
          (write_t sink o fs s)
          (sink.Shows (past ++ encode_fields o fs) (drop (size_of_args fs) ahead))
  unfolding write_t
  write_t-encode o fs past ahead s fits room h =
      rw (make_room-id past ahead s (size_of_args fs) h room)
        (write_each-Shows o fs past ahead s fits room h)
