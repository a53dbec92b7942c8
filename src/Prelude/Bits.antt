-- ===== src/Prelude/Bits.antt =====
-- Bitwise operations on words of every width: one equation for the lowest bit, and from it the
-- meaning of the masks and of the disjunctions that the source writes.
use Prim.Native.Nat.{
  ℕ, zero, suc, ◌+◌, ◌*◌, ◌/◌, ◌%◌, ◌^◌, ◌≤◌, ◌<◌, min, max, bit_and, bit_or, digits, bitwise,
  bit_and-bitwise, bit_or-bitwise,
}
use mathlib.Core.Path.{◌≡◌, refl, ap, ◌∙◌}
use native.Mathlib.Omega.{arith}
use native.Mathlib.Nat.{pow-suc, one-le-pow, le_refl, mul-div_cancel, div-div-eq-div-mul}

-- The shifts of C on a value that they do not overflow.
infixl 75 ◌<<<◌ ◌>>>◌
abbrev pub ◌<<<◌ : ℕ → ℕ → ℕ
x <<< k = x * 2 ^ k

abbrev pub ◌>>>◌ : ℕ → ℕ → ℕ
x >>> k = x / 2 ^ k

module _ (empty : ℕ → ℕ) (op : ℕ → ℕ → ℕ) where
  -- Fuel beyond the first argument changes nothing.
  spare_fuel : (a m n b : ℕ) → a ≤ m → a ≤ n → digits empty op m a b ≡ digits empty op n a b
  spare_fuel zero zero zero b p q = refl
  spare_fuel zero zero (suc n) b p q = refl
  spare_fuel zero (suc m) zero b p q = refl
  spare_fuel zero (suc m) (suc n) b p q = refl
  spare_fuel (suc a) zero n b p q = absurd (omega arith)
  spare_fuel (suc a) (suc m) zero b p q = absurd (omega arith)
  spare_fuel (suc a) (suc m) (suc n) b p q =
      rw (spare_fuel (suc a / 2) m n (b / 2) (omega arith) (omega arith))

  lowest_bit :
      (a b : ℕ)
      → bitwise empty op (suc a) b
        ≡ bitwise empty op (suc a / 2) (b / 2) * 2 + op (suc a % 2) (b % 2)
  lowest_bit a b =
      omega (arith, spare_fuel (suc a / 2) a (suc a / 2) (b / 2) (omega arith) (le_refl _))

pub bit_or_lowest : (a b : ℕ) → bit_or a b ≡ bit_or (a / 2) (b / 2) * 2 + max (a % 2) (b % 2)
bit_or_lowest zero b = rw (bit_or-bitwise 0 b, bit_or-bitwise 0 (b / 2)) (omega arith)
bit_or_lowest (suc a) b =
    rw (bit_or-bitwise (suc a) b, bit_or-bitwise (suc a / 2) (b / 2)) (lowest_bit _ max a b)

pub bit_and_lowest : (a b : ℕ) → bit_and a b ≡ bit_and (a / 2) (b / 2) * 2 + min (a % 2) (b % 2)
bit_and_lowest zero b = rw (bit_and-bitwise 0 b, bit_and-bitwise 0 (b / 2)) (omega arith)
bit_and_lowest (suc a) b =
    rw (bit_and-bitwise (suc a) b, bit_and-bitwise (suc a / 2) (b / 2)) (lowest_bit _ min a b)

zero-bit_or : (b : ℕ) → bit_or 0 b ≡ b
zero-bit_or b = bit_or-bitwise 0 b

-- A bound that halves with the argument.
bit_or-zero_below : (n a : ℕ) → a ≤ n → bit_or a 0 ≡ a
bit_or-zero_below n zero h = zero-bit_or 0
bit_or-zero_below zero (suc a) h = absurd (omega arith)
bit_or-zero_below (suc n) (suc a) h =
    omega (arith, bit_or_lowest (suc a) 0, bit_or-zero_below n (suc a / 2) (omega arith))

bit_and-zero_below : (n a : ℕ) → a ≤ n → bit_and a 0 ≡ 0
bit_and-zero_below n zero h = bit_and-bitwise 0 0
bit_and-zero_below zero (suc a) h = absurd (omega arith)
bit_and-zero_below (suc n) (suc a) h =
    omega (arith, bit_and_lowest (suc a) 0, bit_and-zero_below n (suc a / 2) (omega arith))

pub bit_and-zero : (a : ℕ) → bit_and a 0 ≡ 0
bit_and-zero a = bit_and-zero_below a a (le_refl a)

double : (q k : ℕ) → q * 2 ^ suc k ≡ 2 * (q * 2 ^ k)
double q k = omega (arith, ap (λ (t : ℕ). q * t) (pow-suc 2 k))

-- `(q << k) | r` for an `r` of at most `k` bits.
pub bit_or_disjoint : (k q r : ℕ) → r < 2 ^ k → bit_or (q <<< k) r ≡ q * 2 ^ k + r
bit_or_disjoint zero q r h =
    let none_left : r ≡ 0 = omega arith in
    rw none_left (bit_or-zero_below (q * 2 ^ 0) (q * 2 ^ 0) (le_refl _) ∙ omega arith)
bit_or_disjoint (suc k) q r h =
    let ih = bit_or_disjoint k q (r / 2) (omega (arith, pow-suc 2 k)) in
    let halved : (q * 2 ^ suc k) / 2 ≡ q * 2 ^ k = omega (arith, double q k) in
    bit_or_lowest (q * 2 ^ suc k) r ∙ rw (halved, ih) (omega (arith, double q k))

-- `v & (m << k)` is the part of `v` above the lowest `k` bits under `m`, moved back.
pub bit_and_shifted : (k v m : ℕ) → bit_and v (m <<< k) ≡ bit_and (v >>> k) m <<< k
bit_and_shifted zero v m =
    let one : 2 ^ 0 ≡ 1 = refl in
    let right : m * 1 ≡ m = omega arith in
    let left : v / 1 ≡ v = omega arith in rw (one, right, left) (omega arith)
bit_and_shifted (suc k) v m =
    let halved : (m * 2 ^ suc k) / 2 ≡ m * 2 ^ k = omega (arith, double m k) in
    let parts : v / 2 / 2 ^ k ≡ v / 2 ^ suc k =
      div-div-eq-div-mul v 2 (2 ^ k) ∙ ap (λ (t : ℕ). v / t) (omega (arith, pow-suc 2 k)) in
    bit_and_lowest v (m * 2 ^ suc k)
    ∙ rw (halved, bit_and_shifted k (v / 2) m, parts)
        (omega (arith, double m k, double (bit_and (v / 2 ^ suc k) m) k))

pub bit_and-one : (v : ℕ) → bit_and v 1 ≡ v % 2
bit_and-one v = omega (arith, bit_and_lowest v 1, bit_and-zero (v / 2))

nibble_mask : (v : ℕ) → bit_and v 15 ≡ v % 16
nibble_mask v = omega (
  arith,
  bit_and_lowest v 15,
  bit_and_lowest (v / 2) 7,
  bit_and_lowest (v / 2 / 2) 3,
  bit_and-one (v / 2 / 2 / 2),
)

pub byte_mask : (v : ℕ) → bit_and v 0xff ≡ v % 256
byte_mask v = omega (
  arith,
  bit_and_lowest v 255,
  bit_and_lowest (v / 2) 127,
  bit_and_lowest (v / 2 / 2) 63,
  bit_and_lowest (v / 2 / 2 / 2) 31,
  nibble_mask (v / 2 / 2 / 2 / 2),
)

-- The byte of `v` that stands `k` bits up, as the writers cut it out.
pub masked_byte : (k v : ℕ) → bit_and v (0xff <<< k) >>> k ≡ (v >>> k) % 256
masked_byte k v =
    let cut = bit_and_shifted k v 0xff ∙ ap (λ (t : ℕ). t <<< k) (byte_mask (v >>> k)) in
    ap (λ (t : ℕ). t >>> k) cut ∙ mul-div_cancel (v / 2 ^ k % 256) (one-le-pow k 2 (omega arith))
