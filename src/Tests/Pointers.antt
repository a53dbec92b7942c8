-- ===== src/Tests/Pointers.antt =====
-- A run of Base/SharedPointer.hpp.
use ziqe.Prelude.{◌≡◌, refl, arith, [], none, some, ◌==◌, if◌then◌else◌}
use ziqe.Prelude.Fallible.{Returns}
use ziqe.SharedPointer.{Store, copy_construct, destroy, get_reference_count}
use ziqe.SharedPointer.Counts.{copy_construct-destroy}

-- One reference object, with the count 1.
abbrev shared : Store
shared = record { counts = λ r. if r == 0 then some 1 else none; next_reference = 1; deleted = [] }

copy_construct-destroy_example :
    Returns
      (copy_construct (record { pointer = some 9; reference = none }) shared)
      (λ c. (get_reference_count c.0 c.1 ≡ some 2) × (destroy c.0 c.1 ≡ some c.1))
    × Returns
        (copy_construct (record { pointer = some 9; reference = some 0 }) shared)
        (λ c. (get_reference_count c.0 c.1 ≡ some 3) × (destroy c.0 c.1 ≡ some c.1))
copy_construct-destroy_example = copy_construct-destroy 9 0 1 shared refl (omega arith)
