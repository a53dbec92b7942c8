-- ===== src/Tests/Memory.antt =====
-- Runs of Platforms/Linux/CppCore/Memory.c on a kernel that has every page that it is asked for.
use ziqe.Prelude.{ℕ, suc, ◌+◌, ◌-◌, ◌/◌, ◌^◌, ◌≡◌, [], none, some, arith, length, replicate}
use ziqe.Prelude.Int.{ℤ, pos, negsuc}
use ziqe.KernelMemory.{MemoryKernel, MapContext, first_page, pages_count}
use ziqe.KernelMemory.Pages.{pages_count-short}
use ziqe.KernelMemory.Holdings.{Held}

-- The kernel is what it holds.
abbrev kernel : MemoryKernel Held
kernel = record {
  page_shift = 12;
  pointer_size = 8;
  mem_fault = pos 14;
  prot_write = 2;
  kmalloc = λ size w. (9, record w { arrays = suc w.arrays });
  kfree = λ array w. record w { arrays = w.arrays - 1 };
  down_read = λ w. record w { readers = suc w.readers };
  up_read = λ w. record w { readers = w.readers - 1 };
  get_user_pages = λ address count write w.
      ((pos count, replicate count 5), record w { references = w.references + count });
  put_page = λ p w. record w { references = w.references - 1 };
  vmap = λ pages prot w. (some 100, w);
  vunmap = λ address w. w;
}

abbrev held : Held → Held
held w = w

abbrev the_int : ℤ → ℕ
the_int (pos n) = n
the_int (negsuc n) = 0

abbrev sign : ℤ → ℕ
sign (pos n) = 0
sign (negsuc n) = 1

-- 5000 bytes from the middle of the page 1 on
abbrev context : MapContext
context = record {
  source_address = 6000;
  length = 5000;
  protection = 3;
  pages_array = 0;
  pages = [];
  pages_array_size = 0;
  destination_address = none;
}

abbrev idle : Held
idle = record { references = 4; readers = 1; arrays = 2 }

pages_count-short_example :
    first_page 12 context + pages_count 12 context ≡ (6000 + 5000 - 1) / 2 ^ 12
pages_count-short_example = pages_count-short 12 context (omega arith) (omega arith)
