-- ===== src/Paging.antt =====
-- vm.c: page tables. A pointer of the kernel to memory is the physical address, so P2V and V2P
-- leave no trace. `entries` are the words of the page tables, `bytes` the contents of other pages.
-- The allocator is the view of it that Kalloc.Uniform gives: `supply` are the free pages, each of
-- one page, in the order of the free list. Its lock, and the links in free pages, are left out.
pub mod Translation
pub mod Space
pub mod Copy
pub mod Release
pub mod Unmapping
use soproyecto.Common.{
  ℕ, zero, suc, ◌+◌, ◌-◌, ◌*◌, ◌/◌, ◌%◌, ◌^◌, Bool, true, false, not, ◌&&◌, Option, none, some,
  List, [], ◌∷◌, Run, ok, stop, asleep, ◌>>=◌, panic_remap, panic_kfree, ◌==◌, ltb, leb,
  if◌then◌else◌,
}
use Prim.Native.Nat.{bit_or}
use soproyecto.Kalloc.{bad_page, kernbase}
use soproyecto.Machine.{update}

pub record Vm : Type 0 where
  pub entries : ℕ → ℕ
  pub bytes : ℕ → ℕ
  pub supply : List ℕ
  pub kernel_end : ℕ

abbrev pub pgsize : ℕ
pgsize = 4096

-- PDX, PTX, PTE_ADDR, PTE_FLAGS, PGROUNDDOWN and PGROUNDUP
abbrev pub pdx : ℕ → ℕ
pdx va = va / 2 ^ 22 % 1024

abbrev pub ptx : ℕ → ℕ
ptx va = va / 2 ^ 12 % 1024

abbrev pub pte_addr : ℕ → ℕ
pte_addr e = e / 4096 * 4096

abbrev pub pte_flags : ℕ → ℕ
pte_flags e = e % 4096

abbrev pub pgrounddown : ℕ → ℕ
pgrounddown a = a / 4096 * 4096

abbrev pub pgroundup : ℕ → ℕ
pgroundup a = (a + 4095) % 2 ^ 32 / 4096 * 4096

-- `e & PTE_P` and `e & PTE_U`
abbrev pub is_present : ℕ → Bool
is_present e = e % 2 == 1

abbrev pub is_user : ℕ → Bool
is_user e = e / 4 % 2 == 1

-- `pa | flags`, for flags below 4096
abbrev pub with_flags : (pa flags : ℕ) → ℕ
with_flags pa flags = pte_addr pa + bit_or (pte_flags pa) flags

abbrev pub kalloc : Vm → Option ℕ × Vm
kalloc v = elim v.supply [ [] ↦ (none, v) | p ∷ ps ↦ (some p, record v { supply = ps }) ]

abbrev pub within : (p a : ℕ) → Bool
within p a = leb p a && ltb a (p + pgsize)

-- The page is filled with ones and goes in front of the free list.
unfoldable pub kfree : ℕ → Vm → Run Vm
kfree p v =
    if bad_page v.kernel_end (p + kernbase)
    then stop panic_kfree
    else ok (record v {
      entries = λ a. if within p a then 0x1010101 else v.entries a;
      bytes = λ a. if within p a then 1 else v.bytes a;
      supply = p ∷ v.supply;
    })

-- `memset(p, 0, PGSIZE)` for a page table, and for another page.
abbrev pub clear_table : ℕ → Vm → Vm
clear_table p v = record v { entries = λ a. if within p a then 0 else v.entries a }

abbrev pub clear_page : ℕ → Vm → Vm
clear_page p v = record v { bytes = λ a. if within p a then 0 else v.bytes a }

abbrev pub write_entry : ℕ → ℕ → Vm → Vm
write_entry a e v = record v { entries = update v.entries a e }

-- The rest of walkpgdir where there is no page table yet and kalloc has been asked for one.
abbrev pub add_table : (pde index : ℕ) → Option ℕ × Vm → Option ℕ × Vm
add_table pde index (none, v) = (none, v)
add_table pde index (some p, v) =
    (some (p + 4 * index), write_entry pde (with_flags p 7) (clear_table p v))

-- The address of the entry, or `none` for 0.
unfoldable pub walkpgdir : (pgdir va : ℕ) → Bool → Vm → Option ℕ × Vm
walkpgdir pgdir va alloc v =
    let pde = pgdir + 4 * pdx va in
    let e = v.entries pde in
    if is_present e
    then (some (pte_addr e + 4 * ptx va), v)
    else if alloc
    then add_table pde (ptx va) (kalloc v)
    else (none, v)

-- One round of mappages: the entry of the page, if walkpgdir gives one.
abbrev pub map_page : (pa perm : ℕ) → Option ℕ × Vm → Run (Bool × Vm)
map_page pa perm (none, v) = ok (false, v)
map_page pa perm (some pte, v) =
    if is_present (v.entries pte)
    then stop panic_remap
    else ok (true, write_entry pte (with_flags (with_flags pa perm) 1) v)

-- The loop of mappages, with fuel for its rounds. The result 0 is `true` and -1 is `false`.
unfoldable pub map_pages : (rounds pgdir a last pa perm : ℕ) → Vm → Run (Bool × Vm)
map_pages zero pgdir a last pa perm v = asleep
map_pages (suc n) pgdir a last pa perm v = do
  (mapped, v) ← map_page pa perm (walkpgdir pgdir a true v)
  let rest = map_pages n pgdir ((a + pgsize) % 2 ^ 32) last ((pa + pgsize) % 2 ^ 32) perm v
  if not mapped then ok (false, v) else if a == last then ok (true, v) else rest

unfoldable pub mappages : (rounds pgdir va size pa perm : ℕ) → Vm → Run (Bool × Vm)
mappages rounds pgdir va size pa perm v =
    map_pages rounds pgdir (pgrounddown va) (pgrounddown ((va + size + 2 ^ 32 - 1) % 2 ^ 32)) pa
      perm v
