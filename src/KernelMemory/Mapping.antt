-- ===== src/KernelMemory/Mapping.antt =====
-- What `ZqMmMapUserToKernel` and `ZqMmUnmapUserToKernel` of Platforms/Linux/CppCore/Memory.c hold.
use ziqe.Prelude.{ℕ, suc, ◌+◌, ◌*◌, ◌%◌, ◌^◌, ◌≤◌, ◌<◌, ◌≢◌, ◌≡◌, List, none, some, ◌⊎◌, length}
use ziqe.Vector.{size_mod}
use ziqe.Prelude.Int.{ℤ, pos, negsuc}
use ziqe.KernelMemory.Holdings.{Held, Counts}
use ziqe.KernelMemory.{MemoryKernel, MapContext, pages_count, is_writable}

-- How many pages are asked for, and what `get_user_pages` does within `ZqMmMapUserToKernel`.
abbrev pub asked : {W : Type 0} → MemoryKernel W → MapContext → ℕ
asked kernel c = pages_count kernel.page_shift c

abbrev pub pinning : {W : Type 0} → MemoryKernel W → MapContext → W → (ℤ × List ℕ) × W
pinning kernel c w =
    kernel.get_user_pages c.source_address (asked kernel c) (is_writable kernel.prot_write c)
      (kernel.down_read (kernel.kmalloc (asked kernel c * kernel.pointer_size % size_mod) w).1)

-- The pages in the array as the result tells.
abbrev Pinned : ℤ → List ℕ → ℕ → ℕ → Type 0
Pinned (pos k) pages count n = (k ≡ n) × (length pages ≡ n) × (n ≤ count)
Pinned (negsuc k) pages count n = (n ≡ 0) × (k < 2 ^ 31)

module _ {W : Type 0} (kernel : MemoryKernel W) (held : W → Held) (t : Counts kernel held) where
  -- One array more than before and a reference for each of the pages in it, which are as many as were
  -- asked for; the code is that of success or, where `vmap` has returned a null pointer, of a fault.
  abbrev pub Mapped : ℕ → W → (ℤ × MapContext) × W → Type 0
  Mapped count w ((e, c), w') =
      (held w' ≡ record (held w) {
        references = (held w).references + count;
        arrays = suc (held w).arrays;
      })
      × (length c.pages ≡ count)
      × (c.pages_array_size ≡ count)
      × (e ≡ elim c.destination_address [ none ↦ kernel.mem_fault | some a ↦ pos 0 ])

  -- What a call leaves where `result` is that of `get_user_pages` and `count` pages were asked for.
  abbrev pub Leaves : ℤ → ℕ → W → (ℤ × MapContext) × W → Type 0
  Leaves result count w r =
      ((result ≡ pos count) × Mapped count w r)
      ⊎ ((result ≢ pos count) × (held r.1 ≡ held w) × (r.0.0 ≡ result))

  abbrev pub MapLeaves : MapContext → W → (ℤ × MapContext) × W → Type 0
  MapLeaves c w r = Leaves (pinning kernel c w).0.0 (asked kernel c) w r
