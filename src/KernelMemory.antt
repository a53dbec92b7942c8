-- ===== src/KernelMemory.antt =====
-- Platforms/Linux/CppCore/Memory.c: mapping the memory of the user to the kernel, on the functions of the
-- Linux kernel, which are a parameter. `W` is the state of the kernel.
pub mod Pages
pub mod Results
pub mod Holdings
pub mod Mapping
use ziqe.Prelude.{
  ℕ, not, zero, suc, ◌+◌, ◌*◌, ◌/◌, ◌%◌, ◌^◌, ◌==◌, ◌-◌, ltb, List, [], ◌∷◌, Option, none, some,
  Bool, true, false, if◌then◌else◌,
}
use Prim.Native.Nat.{bit_and}
use ziqe.Prelude.Fallible.{◌>>=◌}
use ziqe.Prelude.Int.{ℤ, pos, negsuc}
use ziqe.Vector.{size_mod, sub_size}

-- The functions of the kernel. `get_user_pages` is given the address, the number of pages and whether they
-- are to be written, and leaves pages in the array; `vmap` returns a null pointer when it fails.
pub record MemoryKernel (W : Type 0) : Type 0 where
  pub page_shift : ℕ
  pub pointer_size : ℕ
  pub mem_fault : ℤ
  pub prot_write : ℕ
  pub kmalloc : ℕ → W → ℕ × W
  pub kfree : ℕ → W → W
  pub down_read : W → W
  pub up_read : W → W
  pub get_user_pages : ℕ → ℕ → Bool → W → (ℤ × List ℕ) × W
  pub put_page : ℕ → W → W
  pub vmap : List ℕ → ℕ → W → Option ℕ × W
  pub vunmap : Option ℕ → W → W

-- `ZqToKernelMapContext`; `pages` are the pages in the array at `pages_array`
pub record MapContext : Type 0 where
  pub source_address : ℕ
  pub length : ℕ
  pub protection : ℕ
  pub pages_array : ℕ
  pub pages : List ℕ
  pub pages_array_size : ℕ
  pub destination_address : Option ℕ

-- `(address & PAGE_MASK) >> PAGE_SHIFT`
unfoldable pub page_index : ℕ → ℕ → ℕ
page_index shift address = (address / 2 ^ shift * 2 ^ shift) / 2 ^ shift

-- `firstPage`, `lastPage` and `pagesCount`
unfoldable pub first_page : ℕ → MapContext → ℕ
first_page shift c = page_index shift c.source_address

unfoldable pub last_page : ℕ → MapContext → ℕ
last_page shift c = page_index shift (sub_size ((c.source_address + c.length) % size_mod) 1)

unfoldable pub pages_count : ℕ → MapContext → ℕ
pages_count shift c = sub_size (last_page shift c) (first_page shift c)

-- `context->protection & PROT_WRITE`
unfoldable pub is_writable : ℕ → MapContext → Bool
is_writable prot_write c = not (bit_and c.protection prot_write == 0)

-- The `int` of 32 bits, given modulo `2 ^ 32`
unfoldable pub int_of : ℕ → ℤ
int_of m = if ltb m (2 ^ 31) then pos m else negsuc (2 ^ 32 - 1 - m)

-- `int ret` holds the lowest 32 bits of the `long` that `get_user_pages` returns.
unfoldable pub to_int : ℤ → ℤ
to_int (pos n) = int_of (n % 2 ^ 32)
to_int (negsuc n) = int_of (2 ^ 32 - 1 - n % 2 ^ 32)

-- `ret == pagesCount`, where `ret` is converted to 64 bits without a sign
unfoldable pub is_count : ℤ → ℕ → Bool
is_count (pos n) count = n == count
is_count (negsuc n) count = size_mod - suc n == count

module _ {W : Type 0} (kernel : MemoryKernel W) where
  -- `zq_put_pages`, of the first `n` elements of the array
  unfoldable pub put_pages : List ℕ → ℕ → W → Option W
  put_pages pages zero w = some w
  put_pages [] (suc n) w = none
  put_pages (p ∷ pages) (suc n) w = put_pages pages n (kernel.put_page p w)

  -- What is done when not all pages have been pinned; the result is returned as the error
  unfoldable pub give_up : ℤ → List ℕ → MapContext → W → Option ((ℤ × MapContext) × W)
  give_up ret pages c w = do
    w' ← elim ret [ pos n ↦ put_pages pages n w | negsuc n ↦ some w ]
    some ((ret, c), kernel.kfree c.pages_array (kernel.up_read w'))

  -- The pages are pinned.
  unfoldable pub map_pages : MapContext → W → Option ((ℤ × MapContext) × W)
  map_pages c w =
      let (address, w') = kernel.vmap c.pages c.protection w in
      let mapped : MapContext = record c { destination_address = address } in
      some ((elim address [ none ↦ kernel.mem_fault | some a ↦ pos 0 ], mapped), w')

  -- What follows `get_user_pages`, for the array and what it leaves
  unfoldable pub after_pinning : MapContext → ℕ → (ℤ × List ℕ) × W → Option ((ℤ × MapContext) × W)
  after_pinning c array ((result, pages), w) =
      let ret = to_int result in
      let count = pages_count kernel.page_shift c in
      let c' : MapContext = record c {
        pages_array = array;
        pages = pages;
        pages_array_size = count;
      } in
      if is_count ret count then map_pages c' (kernel.up_read w) else give_up ret pages c' w

  -- `ZqMmMapUserToKernel`
  unfoldable pub map_user_to_kernel : MapContext → W → Option ((ℤ × MapContext) × W)
  map_user_to_kernel c w =
      let count = pages_count kernel.page_shift c in
      let (array, w') = kernel.kmalloc (count * kernel.pointer_size % size_mod) w in
      after_pinning c array (
        kernel.get_user_pages c.source_address count (is_writable kernel.prot_write c)
          (kernel.down_read w'))

  -- `ZqMmUnmapUserToKernel`
  unfoldable pub unmap_user_to_kernel : MapContext → W → Option W
  unmap_user_to_kernel c w = do
    w' ← put_pages c.pages c.pages_array_size w
    some (kernel.vunmap c.destination_address (kernel.kfree c.pages_array w'))
