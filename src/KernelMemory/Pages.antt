-- ===== src/KernelMemory/Pages.antt =====
-- The number of pages that `ZqMmMapUserToKernel` of Platforms/Linux/CppCore/Memory.c pins.
use native.Mathlib.Nat.{one-le-pow, mul-div_cancel, le-div_iff_mul-le, div-mul-le_self, div-le_self}
use ziqe.Prelude.{ℕ, ◌+◌, ◌-◌, ◌/◌, ◌%◌, ◌^◌, ◌≤◌, ◌<◌, ◌≡◌, ◌∙◌, ap, arith}
use ziqe.Vector.{size_mod, sub_size}
use ziqe.KernelMemory.{MapContext, page_index, first_page, last_page, pages_count}

pow_positive : (k : ℕ) → 0 < 2 ^ k
pow_positive k = one-le-pow k 2 (omega arith)

page_index-div : (shift a : ℕ) → page_index shift a ≡ a / 2 ^ shift
unfolding page_index
page_index-div shift a = mul-div_cancel (a / 2 ^ shift) (pow_positive shift)

div_monotone : (k a b : ℕ) → 0 < k → a ≤ b → a / k ≤ b / k
div_monotone k a b p h = (le-div_iff_mul-le p).1 (omega (arith, div-mul-le_self a k))

difference : (a b : ℕ) → b ≤ a → a < size_mod → sub_size a b ≡ a - b
difference a b h small = omega arith

-- For a range of the memory that is not empty and does not wrap around, the pages that are pinned, as many as
-- `pages_count` from the first one on, are those before the page of the last byte: that page is not
-- among them, and a range within one page has none.
pub pages_count-short :
    (shift : ℕ) (c : MapContext)
    → 0 < c.length
    → c.source_address + c.length < size_mod
    → first_page shift c + pages_count shift c ≡ (c.source_address + c.length - 1) / 2 ^ shift
unfolding first_page last_page pages_count
pages_count-short shift c some_bytes small =
    let end = c.source_address + c.length in
    let whole : sub_size (end % size_mod) 1 ≡ end - 1 = omega arith in
    let first = page_index-div shift c.source_address in
    let last : page_index shift (sub_size (end % size_mod) 1) ≡ (end - 1) / 2 ^ shift =
      ap (page_index shift) whole ∙ page_index-div shift (end - 1) in
    let up =
      div_monotone (2 ^ shift) c.source_address (end - 1) (pow_positive shift) (omega arith) in
    let low = div-le_self (end - 1) (2 ^ shift) in
    let count : sub_size ((end - 1) / 2 ^ shift) (c.source_address / 2 ^ shift)
        ≡ (end - 1) / 2 ^ shift - c.source_address / 2 ^ shift =
      difference ((end - 1) / 2 ^ shift) (c.source_address / 2 ^ shift) up (omega (arith, low)) in
    rw (first, last) (ap (λ n. c.source_address / 2 ^ shift + n) count ∙ omega (arith, up))
