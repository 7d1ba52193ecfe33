-- ===== src/Paging/Copy.antt =====
-- copyuvm, copyout and the other accesses to user memory of vm.c.
use soproyecto.Common.{
  ℕ, zero, suc, ◌+◌, ◌-◌, ◌%◌, ◌^◌, Bool, true, false, not, Option, none, some, List, [], ◌∷◌, Run,
  ok, stop, fault, asleep, ◌>>=◌, panic_uvm, ◌==◌, ltb, leb, if◌then◌else◌, length, take, drop,
}
use soproyecto.CString.{memmove}
use soproyecto.Machine.{update}
use soproyecto.Paging.{
  Vm, pgsize, pte_addr, pte_flags, pgrounddown, is_present, is_user, kalloc, kfree, clear_page,
  write_entry, walkpgdir, mappages,
}
use soproyecto.Paging.Translation.{uva2ka}
use soproyecto.Paging.Space.{freevm, setupkvm}

-- `memmove(to, from, n)` between pages.
abbrev pub move_bytes : (to from n : ℕ) → Vm → Vm
move_bytes to from n v = record v { bytes = memmove to from n v.bytes }

abbrev pub bad_copy : (rounds d : ℕ) → Vm → Run (Option ℕ × Vm)
bad_copy rounds d v = do v ← freevm rounds d v; ok (none, v)

-- One page of copyuvm, with the page that kalloc gives, and then `rest`.
abbrev pub copy_page :
    (rounds d i e : ℕ) → (Vm → Run (Option ℕ × Vm)) → Option ℕ × Vm → Run (Option ℕ × Vm)
copy_page rounds d i e rest (none, v) = bad_copy rounds d v
copy_page rounds d i e rest (some mem, v) = do
  (mapped, v) ← mappages 1 d i pgsize mem (pte_flags e) (move_bytes mem (pte_addr e) pgsize v)
  if mapped then rest v else (kfree mem v >>= bad_copy rounds d)

abbrev pub copy_at :
    (rounds d i : ℕ) → (Vm → Run (Option ℕ × Vm)) → Option ℕ → Vm → Run (Option ℕ × Vm)
copy_at rounds d i rest none v = stop panic_uvm
copy_at rounds d i rest (some pte) v =
    if not (is_present (v.entries pte))
    then stop panic_uvm
    else copy_page rounds d i (v.entries pte) rest (kalloc v)

unfoldable pub copy_pages : (n rounds pgdir d i sz : ℕ) → Vm → Run (Option ℕ × Vm)
copy_pages zero rounds pgdir d i sz v = asleep
copy_pages (suc n) rounds pgdir d i sz v =
    let rest = copy_pages n rounds pgdir d ((i + pgsize) % 2 ^ 32) sz in
    let page = copy_at rounds d i rest (walkpgdir pgdir i false v).0 v in
    if ltb i sz then page else ok (some d, v)

abbrev pub copy_into : (rounds pgdir sz : ℕ) → Option ℕ × Vm → Run (Option ℕ × Vm)
copy_into rounds pgdir sz (none, v) = ok (none, v)
copy_into rounds pgdir sz (some d, v) = copy_pages rounds rounds pgdir d 0 sz v

unfoldable pub copyuvm : (rounds kernel_data pgdir sz : ℕ) → Vm → Run (Option ℕ × Vm)
copyuvm rounds kernel_data pgdir sz v = do
  (d, v) ← setupkvm rounds kernel_data v
  copy_into rounds pgdir sz (d, v)

abbrev pub clear_user : Option ℕ → Vm → Run Vm
clear_user none v = stop panic_uvm
clear_user (some pte) v =
    let e = v.entries pte in ok (write_entry pte (if is_user e then e - 4 else e) v)

unfoldable pub clearpteu : (pgdir uva : ℕ) → Vm → Run Vm
clearpteu pgdir uva v = clear_user (walkpgdir pgdir uva false v).0 v

-- The bytes `buf` at `a`.
unfoldable pub write_bytes : ℕ → List ℕ → (ℕ → ℕ) → ℕ → ℕ
write_bytes a [] m = m
write_bytes a (b ∷ buf) m = write_bytes (a + 1) buf (update m a b)

-- The part of copyout for one page, and then `rest` for what is left.
abbrev pub copy_out :
    (offset : ℕ) → List ℕ → (List ℕ → Vm → Run (Bool × Vm)) → Vm → Option ℕ → Run (Bool × Vm)
copy_out offset buf rest v none = ok (false, v)
copy_out offset buf rest v (some pa) =
    let n = if ltb (length buf) (pgsize - offset) then length buf else pgsize - offset in
    rest (drop n buf) (record v { bytes = write_bytes (pa + offset) (take n buf) v.bytes })

-- The bytes of `buf` go to the address `va`; `len` is their number.
unfoldable pub copyout : (rounds pgdir va : ℕ) → List ℕ → Vm → Run (Bool × Vm)
copyout zero pgdir va buf v = asleep
copyout (suc n) pgdir va buf v =
    let va0 = pgrounddown va in
    let rest = copyout n pgdir ((va0 + pgsize) % 2 ^ 32) in
    let page = (uva2ka pgdir va0 v >>= copy_out (va - va0) buf rest v) in
    if length buf == 0 then ok (true, v) else page

abbrev pub init_page : (pgdir : ℕ) → List ℕ → Option ℕ × Vm → Run Vm
init_page pgdir init (none, v) = fault
init_page pgdir init (some mem, v) = do
  (_, v) ← mappages 1 pgdir 0 pgsize mem 6 (clear_page mem v)
  ok (record v { bytes = write_bytes mem init v.bytes })

-- A failure of kalloc is not tested for; its NULL is taken for a page.
unfoldable pub inituvm : (pgdir : ℕ) → List ℕ → Vm → Run Vm
inituvm pgdir init v =
    if leb pgsize (length init) then stop panic_uvm else init_page pgdir init (kalloc v)
