-- ===== src/Paging/Space.antt =====
-- Address spaces: allocuvm, deallocuvm, freevm, setupkvm, copyuvm and the calls that use them.
-- Loops take fuel. The messages of cprintf are left out.
use soproyecto.Common.{
  ℕ, zero, suc, ◌+◌, ◌-◌, ◌*◌, ◌%◌, ◌^◌, false, not, Option, none, some, List, [], ◌∷◌, Run, ok,
  stop, asleep, ◌>>=◌, panic_freevm, panic_kfree, ◌==◌, ltb, leb, if◌then◌else◌,
}
use soproyecto.Kalloc.{kernbase}
use soproyecto.Paging.{
  Vm, pgsize, pdx, pte_addr, pgroundup, is_present, kalloc, kfree, clear_table, clear_page,
  write_entry, walkpgdir, mappages,
}

-- The entry of a page that deallocuvm finds: a page that is present goes back to the allocator.
abbrev pub drop_page : ℕ → Vm → Run Vm
drop_page pte v =
    if not (is_present (v.entries pte))
    then ok v
    else if pte_addr (v.entries pte) == 0
    then stop panic_kfree
    else do v ← kfree (pte_addr (v.entries pte)) v; ok (write_entry pte 0 v)

-- The page after `a`, or the first page of the next page table if this one is missing.
abbrev pub next_page : ℕ → Option ℕ → ℕ
next_page a none = ((pdx a + 1) * 2 ^ 22 + 2 ^ 32 - pgsize + pgsize) % 2 ^ 32
next_page a (some pte) = (a + pgsize) % 2 ^ 32

abbrev pub drop_at : Option ℕ → Vm → Run Vm
drop_at none v = ok v
drop_at (some pte) v = drop_page pte v

unfoldable pub dealloc_pages : (rounds pgdir a oldsz : ℕ) → Vm → Run Vm
dealloc_pages zero pgdir a oldsz v = asleep
dealloc_pages (suc n) pgdir a oldsz v =
    let pte = (walkpgdir pgdir a false v).0 in
    let rest = (drop_at pte v >>= dealloc_pages n pgdir (next_page a pte) oldsz) in
    if ltb a oldsz then rest else ok v

unfoldable pub deallocuvm : (rounds pgdir oldsz newsz : ℕ) → Vm → Run (ℕ × Vm)
deallocuvm rounds pgdir oldsz newsz v =
    if leb oldsz newsz
    then ok (oldsz, v)
    else do v ← dealloc_pages rounds pgdir (pgroundup newsz) oldsz v; ok (newsz, v)

-- allocuvm gives up: what it has allocated is taken back.
abbrev pub give_up : (rounds pgdir oldsz newsz : ℕ) → Vm → Run (ℕ × Vm)
give_up rounds pgdir oldsz newsz v = do (_, v) ← deallocuvm rounds pgdir newsz oldsz v; ok (0, v)

-- One page of allocuvm, and then `rest`.
abbrev pub alloc_page :
    (rounds pgdir oldsz newsz a : ℕ) → (Vm → Run (ℕ × Vm)) → Option ℕ × Vm → Run (ℕ × Vm)
alloc_page rounds pgdir oldsz newsz a rest (none, v) = give_up rounds pgdir oldsz newsz v
alloc_page rounds pgdir oldsz newsz a rest (some mem, v) = do
  (mapped, v) ← mappages 1 pgdir a pgsize mem 6 (clear_page mem v)
  if mapped
      then rest v
      else do (sz, v) ← give_up rounds pgdir oldsz newsz v; v ← kfree mem v; ok (sz, v)

unfoldable pub alloc_pages : (n rounds pgdir oldsz newsz a : ℕ) → Vm → Run (ℕ × Vm)
alloc_pages zero rounds pgdir oldsz newsz a v = asleep
alloc_pages (suc n) rounds pgdir oldsz newsz a v =
    let rest = alloc_pages n rounds pgdir oldsz newsz ((a + pgsize) % 2 ^ 32) in
    let grow = alloc_page rounds pgdir oldsz newsz a rest (kalloc v) in
    if ltb a newsz then grow else ok (newsz, v)

-- Returns the new size, or 0 on an error.
unfoldable pub allocuvm : (rounds pgdir oldsz newsz : ℕ) → Vm → Run (ℕ × Vm)
allocuvm rounds pgdir oldsz newsz v =
    if leb kernbase newsz
    then ok (0, v)
    else if ltb newsz oldsz
    then ok (oldsz, v)
    else alloc_pages rounds rounds pgdir oldsz newsz (pgroundup oldsz) v

-- The loop of freevm over the page directory, from the index `i` on.
unfoldable pub free_tables : (n pgdir i : ℕ) → Vm → Run Vm
free_tables zero pgdir i v = ok v
free_tables (suc n) pgdir i v = do
  let e = v.entries (pgdir + 4 * i)
  v ← if is_present e then kfree (pte_addr e) v else ok v
  free_tables n pgdir (i + 1) v

unfoldable pub freevm : (rounds pgdir : ℕ) → Vm → Run Vm
freevm rounds pgdir v = if pgdir == 0 then stop panic_freevm else do
  (_, v) ← deallocuvm rounds pgdir kernbase 0 v
  v ← free_tables 1024 pgdir 0 v
  kfree pgdir v

-- `struct kmap`
pub record Kmap : Type 0 where
  pub virt : ℕ
  pub phys_start : ℕ
  pub phys_end : ℕ
  pub perm : ℕ

-- The kernel's mappings. The address of `data` is the linker's.
abbrev pub kmap : (kernel_data : ℕ) → List Kmap
kmap kernel_data =
    record { virt = 0x80000000; phys_start = 0; phys_end = 0x100000; perm = 2 }
    ∷ record {
      virt = 0x80100000;
      phys_start = 0x100000;
      phys_end = kernel_data - kernbase;
      perm = 0;
    }
    ∷ record {
      virt = kernel_data;
      phys_start = kernel_data - kernbase;
      phys_end = 0xe000000;
      perm = 2;
    }
    ∷ record { virt = 0xfe000000; phys_start = 0xfe000000; phys_end = 0; perm = 2 }
    ∷ []

-- The loop of setupkvm; on an error the page directory is freed.
unfoldable pub map_kernel : (rounds pgdir : ℕ) → List Kmap → Vm → Run (Option ℕ × Vm)
map_kernel rounds pgdir [] v = ok (some pgdir, v)
map_kernel rounds pgdir (k ∷ ks) v = do
  (mapped, v) ←
      mappages rounds pgdir k.virt ((k.phys_end + 2 ^ 32 - k.phys_start) % 2 ^ 32) k.phys_start
        k.perm v
  let rest = map_kernel rounds pgdir ks v
  if mapped then rest else do v ← freevm rounds pgdir v; ok (none, v)

abbrev pub setup_in : (rounds kernel_data : ℕ) → Option ℕ × Vm → Run (Option ℕ × Vm)
setup_in rounds kernel_data (none, v) = ok (none, v)
setup_in rounds kernel_data (some pgdir, v) =
    map_kernel rounds pgdir (kmap kernel_data) (clear_table pgdir v)

unfoldable pub setupkvm : (rounds kernel_data : ℕ) → Vm → Run (Option ℕ × Vm)
setupkvm rounds kernel_data v = setup_in rounds kernel_data (kalloc v)
