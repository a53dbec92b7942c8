-- ===== src/Tests/Variants.antt =====
-- Runs of Base/Expected.hpp.
use ziqe.Prelude.{ℕ, Bool, false}
use ziqe.Expected.Variant.{TwoVariant, first, second, first_active, second_active}

abbrev seven : TwoVariant ℕ Bool
seven = record { storage = first 7; current_status = first_active }

abbrev failed : TwoVariant ℕ Bool
failed = record { storage = second false; current_status = second_active }
