-- ===== src/KernelMemory/Results.antt =====
-- The result of `get_user_pages` as Platforms/Linux/CppCore/Memory.c keeps and compares it.
use ziqe.Prelude.{ℕ, ◌^◌, ◌<◌, ◌≡◌, ◌≢◌, ap, arith, false}
use ziqe.Prelude.Int.{pos, negsuc}
use ziqe.KernelMemory.{int_of, to_int, is_count}

-- A number of pages below `2 ^ 31` is kept.
pub to_int-pos : (n : ℕ) → n < 2 ^ 31 → to_int (pos n) ≡ pos n
unfolding to_int int_of
to_int-pos n small = ground (arith, small)

-- So is the negation of an error number.
pub to_int-negsuc : (n : ℕ) → n < 2 ^ 31 → to_int (negsuc n) ≡ negsuc n
unfolding to_int int_of
to_int-negsuc n small = ground (arith, small)

-- The negation of an error number is no number of pages below `2 ^ 31`.
pub is_count-negsuc :
    (n count : ℕ) → n < 2 ^ 31 → count < 2 ^ 31 → is_count (negsuc n) count ≡ false
unfolding is_count
is_count-negsuc n count small few = ground (arith, small, few)

-- A negative result is no number of pages.
pub negsuc-pos : (m n : ℕ) → negsuc m ≢ pos n
negsuc-pos m n e =
    let differ : ◌≡◌ {A = ℕ} 1 0 = ap (λ i. elim i [ pos k ↦ 0 | negsuc k ↦ 1 ]) e in
    absurd (omega (arith, differ))
