-- ===== src/Codec/Buffers.antt =====
-- The interfaces through which the readers and writers reach a vector: what they call, and the
-- laws that they may rely on.
use ziqe.Prelude.{
  ℕ, ◌+◌, ◌≤◌, ◌<◌, ◌≡◌, List, ◌++◌, Option, Bool, true, length, get_elem?, set, take, drop,
}
use ziqe.Prelude.Fallible.{Returns}

-- A vector to write to. `Shows past ahead s`: the bytes `ahead` lie before the cursor of `s`, the
-- bytes `past` have been passed.
pub record Sink (S : Type 0) : Type 1 where
  pub size : S → ℕ
  pub expand : ℕ → S → Option S
  pub put : S → ℕ → ℕ → Option S
  pub advance : ℕ → S → Option S
  pub Shows : List ℕ → List ℕ → S → Type 0
  pub size-Shows : (past ahead : List ℕ) (s : S) → Shows past ahead s → size s ≡ length ahead
  pub put-Shows :
      (past ahead : List ℕ) (s : S) (i x : ℕ)
      → Shows past ahead s
      → i < length ahead
      → Returns (put s i x) (Shows past (set ahead i x))
  pub advance-Shows :
      (past ahead : List ℕ) (s : S) (n : ℕ)
      → Shows past ahead s
      → n ≤ length ahead
      → Returns (advance n s) (Shows (past ++ take n ahead) (drop n ahead))

-- A vector to read from. `Shows ahead s`: `ahead` is what `s` is known to give. A cursor can be
-- moved as long as `spare` bytes stay before it.
pub record Source (S : Type 0) : Type 1 where
  pub at : S → ℕ → Option ℕ
  pub advance : ℕ → S → Option S
  pub has_length : ℕ → S → Bool × S
  pub spare : ℕ
  pub Shows : List ℕ → S → Type 0
  pub at-Shows :
      (ahead : List ℕ) (s : S) (i : ℕ)
      → Shows ahead s
      → i < length ahead
      → at s i ≡ get_elem? ahead i
  pub advance-Shows :
      (ahead : List ℕ) (s : S) (n : ℕ)
      → Shows ahead s
      → n + spare ≤ length ahead
      → Returns (advance n s) (Shows (drop n ahead))
  pub has_length-Shows :
      (ahead : List ℕ) (s : S) (n : ℕ)
      → Shows ahead s
      → n ≤ length ahead
      → has_length n s ≡ (true, s)
