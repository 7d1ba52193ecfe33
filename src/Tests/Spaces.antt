-- ===== src/Tests/Spaces.antt =====
-- Page tables at a concrete page directory with free pages.
use soproyecto.Common.{
  ℕ, ◌/◌, ◌≡◌, refl, true, none, some, List, [], ◌∷◌, Run, ok, stop, fault, inr, arith,
}
use soproyecto.Paging.{Vm, mappages, walkpgdir, map_pages, kfree}
use soproyecto.Paging.Translation.{NeedsTable, mappages-uva2ka, uva2ka}
use soproyecto.Paging.Space.{allocuvm, alloc_pages, deallocuvm, dealloc_pages}
use soproyecto.Paging.Unmapping.{mappages-deallocuvm}

-- A page directory at 0x400000 without page tables.
abbrev empty_space : Vm
empty_space = record {
  entries = λ a. 0;
  bytes = λ a. 0;
  supply = 0x401000 ∷ 0x402000 ∷ 0x403000 ∷ [];
  kernel_end = 0x80100000;
}

empty_space-NeedsTable : NeedsTable 0x400000 0x5000 empty_space
empty_space-NeedsTable = record {
  page = 0x401000;
  pages = 0x402000 ∷ 0x403000 ∷ [];
  missing = refl;
  supplied = refl;
  aligned = refl;
  outside = refl;
}

mappages-uva2ka_example :
    (v' : Vm) × (mappages 1 0x400000 0x5000 4096 0x600000 6 empty_space ≡ ok (true, v'))
    × ((uva : ℕ) → uva / 4096 ≡ 0x5000 / 4096 → uva2ka 0x400000 uva v' ≡ ok (some 0x600000))
mappages-uva2ka_example =
    mappages-uva2ka 0 0x400000 0x5000 0x600000 empty_space refl (omega arith) refl
      (inr empty_space-NeedsTable)

mappages-deallocuvm_example :
    (v' : Vm) × (v'' : Vm) × (mappages 1 0x400000 0x5000 4096 0x600000 6 empty_space
      ≡ ok (true, v'))
    × (deallocuvm 2 0x400000 0x6000 0x5000 v' ≡ ok (0x5000, v''))
    × (v''.supply ≡ 0x600000 ∷ v'.supply)
    × ((uva : ℕ) → uva / 4096 ≡ 0x5000 / 4096 → uva2ka 0x400000 uva v'' ≡ ok none)
mappages-deallocuvm_example =
    mappages-deallocuvm 0 0x400000 0x5000 0x600000 empty_space refl (omega arith)
      (record { aligned = refl; not_null = omega arith; good = refl; outside = refl })
      (inr empty_space-NeedsTable)

abbrev size_of : Run (ℕ × Vm) → Run (ℕ × List ℕ)
size_of (ok (sz, v)) = ok (sz, v.supply)
size_of (stop p) = stop p
size_of _ = fault

-- Two pages and a page table are taken; for a third page there is no memory, and the two go back.
grown : size_of (allocuvm 4 0x400000 0 8192 empty_space) ≡ ok (8192, [])
unfolding allocuvm alloc_pages mappages map_pages walkpgdir
grown = refl

too_large : size_of (allocuvm 4 0x400000 0 12288 empty_space) ≡ ok (0, 0x403000 ∷ 0x401000 ∷ [])
unfolding allocuvm alloc_pages mappages map_pages walkpgdir deallocuvm dealloc_pages kfree
too_large = refl
