-- ===== src/Codec/Values.antt =====
-- The value readers and writers of both byte orders compute the digits to the base 256.
use mathlib.Core.List.{reverse-reverse}
use native.Mathlib.Nat.{pow-suc}
use ziqe.Prelude.{
  ℕ, zero, suc, ◌+◌, ◌*◌, ◌/◌, ◌%◌, ◌^◌, ◌<◌, ◌≡◌, refl, ◌∙◌, ap, List, [], ◌∷◌, ◌++◌, Option, some,
  arith, length, get_elem?, set, bit_or,
}
use ziqe.Prelude.Bits.{◌<<<◌, bit_or_disjoint, masked_byte}
use ziqe.Codec.{
  Width, w8, w16, w32, w64, byte_length, Order, little, big, join2, join4, join8, read_little,
  read_big, read_value, cut, write_little, write_big, write_value,
}
use ziqe.Codec.Bytes.{le_bytes, le_value, oriented, encode, decode, Fits}

or_add : (k q x b : ℕ) → x ≡ q * 2 ^ k → b < 2 ^ k → bit_or x b ≡ x + b
or_add k q x b e h = rw e (bit_or_disjoint k q b h)

join2-value : (b1 b0 : ℕ) → b1 < 256 → b0 < 256 → join2 b1 b0 ≡ b0 + 256 * b1
unfolding join2
join2-value b1 b0 h1 h0 = omega (arith, bit_or_disjoint 8 b1 b0 h0)

join4-value :
    (b3 b2 b1 b0 : ℕ)
    → b3 < 256
    → b2 < 256
    → b1 < 256
    → b0 < 256
    → join4 b3 b2 b1 b0 ≡ b0 + 256 * (b1 + 256 * (b2 + 256 * b3))
unfolding join4
join4-value b3 b2 b1 b0 h3 h2 h1 h0 =
    let e2 = or_add 24 b3 (b3 <<< 24) (b2 <<< 16) (omega arith) (omega arith) in
    let e1 =
      or_add 16 (b3 * 256 + b2) (bit_or (b3 <<< 24) (b2 <<< 16)) (b1 <<< 8) (omega (arith, e2))
        (omega arith) in
    let e0 =
      or_add 8 ((b3 * 256 + b2) * 256 + b1) (bit_or (bit_or (b3 <<< 24) (b2 <<< 16)) (b1 <<< 8)) b0
        (omega (arith, e2, e1)) (omega arith) in
    omega (arith, e2, e1, e0)

pub cut-digit : (v k : ℕ) → cut v k ≡ v / 2 ^ k % 256
unfolding cut
cut-digit v k = omega (arith, masked_byte k v)

join8-value :
    (b7 b6 b5 b4 b3 b2 b1 b0 : ℕ)
    → b7 < 256
    → b6 < 256
    → b5 < 256
    → b4 < 256
    → b3 < 256
    → b2 < 256
    → b1 < 256
    → b0 < 256
    → join8 b7 b6 b5 b4 b3 b2 b1 b0 ≡ le_value (b0 ∷ b1 ∷ b2 ∷ b3 ∷ b4 ∷ b5 ∷ b6 ∷ b7 ∷ [])
unfolding join8
join8-value b7 b6 b5 b4 b3 b2 b1 b0 h7 h6 h5 h4 h3 h2 h1 h0 =
    let x6 = bit_or (b7 <<< 56) (b6 <<< 48) in
    let x5 = bit_or x6 (b5 <<< 40) in
    let x4 = bit_or x5 (b4 <<< 32) in
    let x3 = bit_or x4 (b3 <<< 24) in
    let x2 = bit_or x3 (b2 <<< 16) in
    let x1 = bit_or x2 (b1 <<< 8) in
    let q6 = b7 * 256 + b6 in
    let q5 = q6 * 256 + b5 in
    let q4 = q5 * 256 + b4 in
    let q3 = q4 * 256 + b3 in
    let q2 = q3 * 256 + b2 in
    let q1 = q2 * 256 + b1 in
    let e6 : x6 ≡ q6 * 2 ^ 48 =
      or_add 56 b7 (b7 <<< 56) (b6 <<< 48) (omega arith) (omega arith) ∙ omega arith in
    let e5 : x5 ≡ q5 * 2 ^ 40 = or_add 48 q6 x6 (b5 <<< 40) e6 (omega arith) ∙ omega (arith, e6) in
    let e4 : x4 ≡ q4 * 2 ^ 32 = or_add 40 q5 x5 (b4 <<< 32) e5 (omega arith) ∙ omega (arith, e5) in
    let e3 : x3 ≡ q3 * 2 ^ 24 = or_add 32 q4 x4 (b3 <<< 24) e4 (omega arith) ∙ omega (arith, e4) in
    let e2 : x2 ≡ q2 * 2 ^ 16 = or_add 24 q3 x3 (b2 <<< 16) e3 (omega arith) ∙ omega (arith, e3) in
    let e1 : x1 ≡ q1 * 2 ^ 8 = or_add 16 q2 x2 (b1 <<< 8) e2 (omega arith) ∙ omega (arith, e2) in
    or_add 8 q1 x1 b0 e1 h0 ∙ omega (arith, e1)

-- Every element is a byte.
abbrev pub IsBytes : List ℕ → Type 0
IsBytes [] = Unit {0}
IsBytes (b ∷ bs) = (b < 256) × IsBytes bs

-- A value reader whose vector shows as many bytes as the value has gives the number that these
-- bytes stand for in the reader's byte order.
pub read_value-decode :
    (o : Order) (w : Width) (bs : List ℕ) (at : ℕ → Option ℕ)
    → length bs ≡ byte_length w
    → IsBytes bs
    → ((i : ℕ) → i < length bs → at i ≡ get_elem? bs i)
    → read_value o w at ≡ some (decode o bs)
unfolding read_value read_little read_big
read_value-decode little w8 (b0 ∷ []) at n h e = e 0 (omega arith) ∙ ap some (omega arith)
read_value-decode big w8 (b0 ∷ []) at n h e = e 0 (omega arith) ∙ ap some (omega arith)
read_value-decode little w16 (b0 ∷ b1 ∷ []) at n h e =
    rw (e 1 (omega arith), e 0 (omega arith))
      (ap some (join2-value b1 b0 (omega arith) (omega arith) ∙ omega arith))
read_value-decode little w32 (b0 ∷ b1 ∷ b2 ∷ b3 ∷ []) at n h e =
    rw (e 3 (omega arith), e 2 (omega arith), e 1 (omega arith), e 0 (omega arith))
      (ap some (
        join4-value b3 b2 b1 b0 (omega arith) (omega arith) (omega arith) (omega arith)
        ∙ omega arith))
read_value-decode little w64 (b0 ∷ b1 ∷ b2 ∷ b3 ∷ b4 ∷ b5 ∷ b6 ∷ b7 ∷ []) at n h e =
    rw
      (
        e 7 (omega arith),
        e 6 (omega arith),
        e 5 (omega arith),
        e 4 (omega arith),
        e 3 (omega arith),
        e 2 (omega arith),
        e 1 (omega arith),
        e 0 (omega arith),
      )
      (ap some (
        join8-value b7 b6 b5 b4 b3 b2 b1 b0 (omega arith) (omega arith) (omega arith) (omega arith)
          (omega arith) (omega arith) (omega arith) (omega arith)
        ∙ omega arith))
read_value-decode big w16 (b0 ∷ b1 ∷ []) at n h e =
    rw (e 0 (omega arith), e 1 (omega arith))
      (ap some (join2-value b0 b1 (omega arith) (omega arith) ∙ omega arith))
read_value-decode big w32 (b0 ∷ b1 ∷ b2 ∷ b3 ∷ []) at n h e =
    rw (e 0 (omega arith), e 1 (omega arith), e 2 (omega arith), e 3 (omega arith))
      (ap some (
        join4-value b0 b1 b2 b3 (omega arith) (omega arith) (omega arith) (omega arith)
        ∙ omega arith))
read_value-decode big w64 (b0 ∷ b1 ∷ b2 ∷ b3 ∷ b4 ∷ b5 ∷ b6 ∷ b7 ∷ []) at n h e =
    rw
      (
        e 0 (omega arith),
        e 1 (omega arith),
        e 2 (omega arith),
        e 3 (omega arith),
        e 4 (omega arith),
        e 5 (omega arith),
        e 6 (omega arith),
        e 7 (omega arith),
      )
      (ap some (
        join8-value b0 b1 b2 b3 b4 b5 b6 b7 (omega arith) (omega arith) (omega arith) (omega arith)
          (omega arith) (omega arith) (omega arith) (omega arith)
        ∙ omega arith))
read_value-decode o w bs at n h e = absurd (omega arith)

pub le_value-le_bytes : (n v : ℕ) → v < 256 ^ n → le_value (le_bytes n v) ≡ v
le_value-le_bytes zero v h = omega arith
le_value-le_bytes (suc n) v h =
    omega (arith, le_value-le_bytes n (v / 256) (omega (arith, pow-suc 256 n)))

reverse_twice : (o : Order) (bs : List ℕ) → oriented o (oriented o bs) ≡ bs
reverse_twice little bs = refl
reverse_twice big bs = reverse-reverse bs

-- Decoding undoes encoding in the same byte order.
pub decode-encode : (o : Order) (w : Width) (v : ℕ) → Fits w v → decode o (encode o w v) ≡ v
decode-encode o w v h =
    ap le_value (reverse_twice o (le_bytes (byte_length w) v))
    ∙ le_value-le_bytes (byte_length w) v h

-- The assignments, made one after another on the bytes of the vector.
abbrev pub apply_writes : List (ℕ × ℕ) → List ℕ → List ℕ
apply_writes [] bs = bs
apply_writes ((i, x) ∷ ws) bs = apply_writes ws (set bs i x)

-- The assignments of a value writer put the encoding of a value that fits in place of as many old
-- bytes, and leave the bytes behind them as they are.
pub apply_writes-encode :
    (o : Order) (w : Width) (v : ℕ) (old rest : List ℕ)
    → Fits w v
    → length old ≡ byte_length w
    → apply_writes (write_value o w v) (old ++ rest) ≡ encode o w v ++ rest
unfolding write_value write_little write_big
apply_writes-encode little w8 v (a ∷ []) rest h n = ap (λ t. t ∷ rest) (omega arith)
apply_writes-encode big w8 v (a ∷ []) rest h n = ap (λ t. t ∷ rest) (omega arith)
apply_writes-encode little w16 v (a0 ∷ a1 ∷ []) rest h n =
    ground (arith, cut-digit v 0, cut-digit v 8)
apply_writes-encode little w32 v (a0 ∷ a1 ∷ a2 ∷ a3 ∷ []) rest h n =
    ground (arith, cut-digit v 0, cut-digit v 8, cut-digit v 16, cut-digit v 24)
apply_writes-encode little w64 v (a0 ∷ a1 ∷ a2 ∷ a3 ∷ a4 ∷ a5 ∷ a6 ∷ a7 ∷ []) rest h n = ground (
  arith,
  cut-digit v 0,
  cut-digit v 8,
  cut-digit v 16,
  cut-digit v 24,
  cut-digit v 32,
  cut-digit v 40,
  cut-digit v 48,
  cut-digit v 56,
)
apply_writes-encode big w16 v (a0 ∷ a1 ∷ []) rest h n = ground (arith, cut-digit v 8, cut-digit v 0)
apply_writes-encode big w32 v (a0 ∷ a1 ∷ a2 ∷ a3 ∷ []) rest h n =
    ground (arith, cut-digit v 24, cut-digit v 16, cut-digit v 8, cut-digit v 0)
apply_writes-encode big w64 v (a0 ∷ a1 ∷ a2 ∷ a3 ∷ a4 ∷ a5 ∷ a6 ∷ a7 ∷ []) rest h n = ground (
  arith,
  cut-digit v 56,
  cut-digit v 48,
  cut-digit v 40,
  cut-digit v 32,
  cut-digit v 24,
  cut-digit v 16,
  cut-digit v 8,
  cut-digit v 0,
)
apply_writes-encode o w v old rest h n = absurd (omega arith)
