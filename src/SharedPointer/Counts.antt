-- ===== src/SharedPointer/Counts.antt =====
-- The counts of the copies of Base/SharedPointer.hpp.
use ziqe.Prelude.{ℕ, suc, ◌+◌, ◌%◌, ◌<◌, ◌≡◌, refl, ap, none, some, ==_iff, arith}
use ziqe.Prelude.Fallible.{Returns}
use ziqe.Vector.{size_mod}
use ziqe.SharedPointer.{
  Store, write_count, increase_count, decrease_count, destroy, copy_construct, get_reference_count,
}

-- What is known of a count.
abbrev pub Counted : ℕ → ℕ → Store → Type 0
Counted r n s = s.counts r ≡ some n

write_count-Counted : (r n : ℕ) (s : Store) → Counted r n (write_count r n s)
unfolding write_count
write_count-Counted r n s = rw (==_iff r r).1 refl

-- Destroying a pointer with a positive count deletes nothing and leaves every count as it is.
destroy-positive :
    (object r n : ℕ) (s : Store)
    → Counted r (suc n) s
    → destroy (record { pointer = some object; reference = some r }) s ≡ some s
unfolding destroy decrease_count
destroy-positive object r n s count = rw (destroy, decrease_count, count) refl

-- A copy is counted, and destroying it neither gives its count back nor deletes the object: this
-- holds of the first copy of a pointer and of a copy of a pointer with a count below `2 ^ 64 - 2`.
pub copy_construct-destroy :
    (object r n : ℕ) (s : Store)
    → Counted r n s
    → n + 2 < size_mod
    → Returns
        (copy_construct (record { pointer = some object; reference = none }) s)
        (λ c. (get_reference_count c.0 c.1 ≡ some 2) × (destroy c.0 c.1 ≡ some c.1))
      × Returns
          (copy_construct (record { pointer = some object; reference = some r }) s)
          (λ c. (get_reference_count c.0 c.1 ≡ some (n + 2)) × (destroy c.0 c.1 ≡ some c.1))
unfolding copy_construct increase_count get_reference_count
copy_construct-destroy object r n s count small =
    let f = s.next_reference in
    let s' = record (write_count f 1 s) { next_reference = suc f } in
    let first : Counted f 1 s' = write_count-Counted f 1 s in
    let m = suc n in
    let next : (n + 1) % size_mod ≡ m = omega arith in
    let t = write_count r m s in
    let more : Counted r m t = write_count-Counted r m s in
    let total : (m + 1) % size_mod ≡ n + 2 = omega arith in
    (
      (
        (record { pointer = some object; reference = some f }, s'),
        refl,
        (rw (get_reference_count, first) refl, destroy-positive object f 0 s' first),
      ),
      (
        (record { pointer = some object; reference = some r }, t),
        rw (copy_construct, increase_count, count, next) refl,
        (rw (get_reference_count, more) (ap some total), destroy-positive object r n t more),
      ),
    )
