-- ===== src/Hash.antt =====
-- The hash functions of Base/HashTable.hpp.
use ziqe.Prelude.{ℕ, ◌+◌, ◌%◌, ◌<◌, arith, List, [], ◌∷◌}
use ziqe.Prelude.Bits.{◌<<<◌}
use ziqe.Vector.{size_mod}

-- `Hash` of an unsigned integer of at most 64 bits
unfoldable pub hash_integer : ℕ → ℕ
hash_integer value = value % size_mod

-- The loop over the bytes of an array.
unfoldable pub hash_from : ℕ → List ℕ → ℕ
hash_from hash [] = hash
hash_from hash (element ∷ bytes) =
    hash_from (((hash <<< 5) % size_mod + hash + element) % size_mod) bytes

-- `Hash` of an array of bytes, and of a vector of bytes
unfoldable pub hash_bytes : List ℕ → ℕ
hash_bytes bytes = hash_from 5381 bytes

hash_from-lt : (bytes : List ℕ) (hash : ℕ) → hash < size_mod → hash_from hash bytes < size_mod
unfolding hash_from
hash_from-lt [] hash h = h
hash_from-lt (b ∷ bytes) hash h =
    hash_from-lt bytes (((hash <<< 5) % size_mod + hash + b) % size_mod) (omega arith)

-- Every hash is a `uint64_t`.
hash_bytes-lt : (bytes : List ℕ) → hash_bytes bytes < size_mod
unfolding hash_bytes
hash_bytes-lt bytes = hash_from-lt bytes 5381 (omega arith)
