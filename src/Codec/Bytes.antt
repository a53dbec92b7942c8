-- ===== src/Codec/Bytes.antt =====
-- What the byte orders mean: the digits of a number to the base 256.
use ziqe.Prelude.{ℕ, zero, suc, ◌+◌, ◌*◌, ◌/◌, ◌%◌, ◌^◌, ◌<◌, List, [], ◌∷◌}
use mathlib.Core.List.{reverse}
use ziqe.Codec.{Width, byte_length, Order, little, big}

-- The `n` lowest digits, the lowest first.
abbrev pub le_bytes : ℕ → ℕ → List ℕ
le_bytes zero v = []
le_bytes (suc n) v = (v % 256) ∷ le_bytes n (v / 256)

abbrev pub le_value : List ℕ → ℕ
le_value [] = 0
le_value (b ∷ bs) = b + 256 * le_value bs

abbrev pub oriented : Order → List ℕ → List ℕ
oriented little bs = bs
oriented big bs = reverse bs

-- The bytes of `v` in memory order.
abbrev pub encode : Order → Width → ℕ → List ℕ
encode o w v = oriented o (le_bytes (byte_length w) v)

-- The number that bytes in memory order stand for.
abbrev pub decode : Order → List ℕ → ℕ
decode o bs = le_value (oriented o bs)

-- `v` is a value of the type of width `w`.
abbrev pub Fits : Width → ℕ → Type 0
Fits w v = v < 256 ^ byte_length w
