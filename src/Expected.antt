-- ===== src/Expected.antt =====
-- Base/Expected.hpp: a value or an error. The data type is what its users build and read; how it
-- is stored in a variant of two types is modelled in Expected/Variant.
pub mod Variant

-- `Expected<T, ErrorType>`, as its users build it and read it.
pub data Expected {ℓ} (T E : Type ℓ) : Type ℓ where
  value : T → Expected T E
  error : E → Expected T E
