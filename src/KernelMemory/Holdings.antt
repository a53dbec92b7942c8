-- ===== src/KernelMemory/Holdings.antt =====
-- What the functions that Platforms/Linux/CppCore/Memory.c calls count: references, readers and arrays.
use ziqe.Prelude.{
  ℕ, zero, suc, ◌+◌, ◌-◌, ◌^◌, ◌≤◌, ◌<◌, ◌≡◌, refl, ◌∙◌, ap, List, [], ◌∷◌, Option, Bool, arith,
  length,
}
use ziqe.Prelude.Fallible.{Returns}
use ziqe.Prelude.Int.{pos, negsuc}
use ziqe.KernelMemory.{MemoryKernel, put_pages}

-- The references to pages, the readers of the lock and the arrays that there are.
pub record Held : Type 0 where
  pub references : ℕ
  pub readers : ℕ
  pub arrays : ℕ

abbrev pub with_references : ℕ → Held → Held
with_references r x = record x { references = r }

pub Held-parts :
    (x y : Held) → x.references ≡ y.references → x.readers ≡ y.readers → x.arrays ≡ y.arrays → x ≡ y
Held-parts x y a b c i = record { references = a i; readers = b i; arrays = c i }

-- What the functions of the kernel promise: a result of `get_user_pages` that is not negative is the number
-- of pages in the array, at most as many as were asked for, each with one reference more; one that is
-- negative is an error number, of at most 31 bits, and no page is pinned then.
pub record Counts {W : Type 0} (kernel : MemoryKernel W) (held : W → Held) : Type 0 where
  pub kmalloc :
      (size : ℕ) (w : W)
      → held (kernel.kmalloc size w).1 ≡ record (held w) { arrays = suc (held w).arrays }
  pub kfree :
      (array : ℕ) (w : W)
      → held (kernel.kfree array w) ≡ record (held w) { arrays = (held w).arrays - 1 }
  pub down_read :
      (w : W) → held (kernel.down_read w) ≡ record (held w) { readers = suc (held w).readers }
  pub up_read :
      (w : W) → held (kernel.up_read w) ≡ record (held w) { readers = (held w).readers - 1 }
  pub put_page :
      (p : ℕ) (w : W)
      → held (kernel.put_page p w) ≡ record (held w) { references = (held w).references - 1 }
  pub vmap : (pages : List ℕ) (prot : ℕ) (w : W) → held (kernel.vmap pages prot w).1 ≡ held w
  pub vunmap : (address : Option ℕ) (w : W) → held (kernel.vunmap address w) ≡ held w
  pub pinned :
      (address count : ℕ) (write : Bool) (w : W) (n : ℕ) (pages : List ℕ) (w' : W)
      → kernel.get_user_pages address count write w ≡ ((pos n, pages), w')
      → (length pages ≡ n)
        × (n ≤ count)
        × (held w' ≡ record (held w) { references = (held w).references + n })
  pub not_pinned :
      (address count : ℕ) (write : Bool) (w : W) (n : ℕ) (pages : List ℕ) (w' : W)
      → kernel.get_user_pages address count write w ≡ ((negsuc n, pages), w')
      → (n < 2 ^ 31) × (held w' ≡ held w)

module _ {W : Type 0} (kernel : MemoryKernel W) (held : W → Held) (t : Counts kernel held) where
  -- Each page that is put gives one reference back.
  pub put_pages-held :
      (pages : List ℕ) (n r : ℕ) (w : W)
      → n ≤ length pages
      → (held w).references ≡ r + n
      → Returns (put_pages kernel pages n w) (λ w'. held w' ≡ record (held w) { references = r })
  unfolding put_pages
  put_pages-held pages zero r w inside all =
      let e : (held w).references ≡ r = omega (arith, all) in
      (w, refl, ap (λ k. with_references k (held w)) e)
  put_pages-held [] (suc n) r w inside all = absurd (omega arith)
  put_pages-held (p ∷ pages) (suc n) r w inside all =
      let w1 = kernel.put_page p w in
      let one : (held w1).references ≡ r + n =
        ap (λ (x : Held). x.references) (t.put_page p w) ∙ omega (arith, all) in
      let (w2, run, left) = put_pages-held pages n r w1 (omega arith) one in
      (w2, run, left ∙ ap (with_references r) (t.put_page p w))
