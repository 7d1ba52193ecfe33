-- ===== src/Paging/Unmapping.antt =====
-- deallocuvm takes back a page that mappages has mapped.
use soproyecto.Common.{
  ℕ, suc, ◌+◌, ◌-◌, ◌/◌, ◌%◌, ◌^◌, ◌<◌, ◌∙◌, ap, ◌⊎◌, ◌≡◌, ◌≢◌, true, false, none, some, ◌∷◌, ok,
  ◌==◌, if◌then◌else◌, refl, arith, ltb, leb,
}
use soproyecto.Machine.{update_self, update_ne}
use soproyecto.Kalloc.{bad_page, kernbase}
use soproyecto.Paging.{
  Vm, pte_addr, pgrounddown, pgroundup, is_present, within, write_entry, kfree, walkpgdir, mappages,
}
use soproyecto.Paging.Space.{drop_page, dealloc_pages, deallocuvm}
use soproyecto.Paging.Translation.{
  uva2ka, pde_at, pte_at, walkpgdir-present, user_entry, user_entry_lem, present_add, pte_addr_add,
  HasTable, NeedsTable, walkpgdir_lem, mapped, map_pages-mapped, walkpgdir-page,
}

-- A page of memory that may be mapped and taken back: aligned, not at 0, in the range of the
-- allocator, and apart from the entry of the page directory.
pub record IsUserPage (pgdir va pa : ℕ) (v : Vm) : Type 0 where
  pub aligned : pa % 4096 ≡ 0
  pub not_null : pa ≢ 0
  pub good : bad_page v.kernel_end (pa + kernbase) ≡ false
  pub outside : within pa (pde_at pgdir va) ≡ false

-- The page `pa` back on the free list, and its entry 0.
abbrev pub unmapped : (table va pa : ℕ) → Vm → Vm
unmapped table va pa w = write_entry (pte_at table va) 0 (record w {
  entries = λ a. if within pa a then 0x1010101 else w.entries a;
  bytes = λ a. if within pa a then 1 else w.bytes a;
  supply = pa ∷ w.supply;
})

module _ (pgdir va pa t : ℕ) (w : Vm) (h : HasTable pgdir va t w)
    (u : IsUserPage pgdir va pa w) where
  entry_mapped : (mapped t va pa w).entries (pte_at t va) ≡ pa + 7
  entry_mapped = update_self w.entries (pte_at t va) (user_entry pa) ∙ user_entry_lem pa u.aligned

  directory_mapped : (mapped t va pa w).entries (pde_at pgdir va) ≡ w.entries (pde_at pgdir va)
  directory_mapped = update_ne w.entries (pte_at t va) (pde_at pgdir va) (user_entry pa) h.apart

  drop_page-mapped :
      drop_page (pte_at t va) (mapped t va pa w) ≡ ok (unmapped t va pa (mapped t va pa w))
  unfolding kfree
  drop_page-mapped =
      let some_page : (pa == 0) ≡ false = ground (arith, u.not_null) in
      rw entry_mapped
        (rw (present_add pa u.aligned, pte_addr_add pa u.aligned, some_page) (rw u.good refl))

  walkpgdir-mapped :
      walkpgdir pgdir va false (mapped t va pa w) ≡ (some (pte_at t va), mapped t va pa w)
  walkpgdir-mapped =
      walkpgdir-present pgdir va t false (mapped t va pa w)
        (ap is_present directory_mapped ∙ h.present) (ap pte_addr directory_mapped ∙ h.leads)

  deallocuvm-mapped :
      (n : ℕ)
      → va % 4096 ≡ 0
      → va + 4096 < 2 ^ 32
      → deallocuvm (suc (suc n)) pgdir (va + 4096) va (mapped t va pa w)
        ≡ ok (va, unmapped t va pa (mapped t va pa w))
  unfolding deallocuvm dealloc_pages
  deallocuvm-mapped n start small =
      let shrinks : leb (va + 4096) va ≡ false = ground arith in
      let first : pgroundup va ≡ va = omega (arith, start, small) in
      let below : ltb va (va + 4096) ≡ true = ground arith in
      let next : (va + 4096) % 2 ^ 32 ≡ va + 4096 = omega (arith, small) in
      let over : ltb (va + 4096) (va + 4096) ≡ false = ground arith in
      rw (shrinks, first, below)
        (rw walkpgdir-mapped (rw drop_page-mapped (rw next (rw over refl))))

  uva2ka-unmapped :
      (uva : ℕ)
      → uva / 4096 ≡ va / 4096
      → uva2ka pgdir uva (unmapped t va pa (mapped t va pa w)) ≡ ok none
  unfolding uva2ka
  uva2ka-unmapped uva same =
      let m = mapped t va pa w in
      let m' = unmapped t va pa m in
      let here : m'.entries (pde_at pgdir va) ≡ w.entries (pde_at pgdir va) =
        update_ne (λ a. if within pa a then 0x1010101 else m.entries a) (pte_at t va)
          (pde_at pgdir va) 0 h.apart
        ∙ ap (λ b. if b then 0x1010101 else m.entries (pde_at pgdir va)) u.outside
        ∙ directory_mapped in
      let gone : m'.entries (pte_at t va) ≡ 0 =
        update_self (λ a. if within pa a then 0x1010101 else m.entries a) (pte_at t va) 0 in
      let walk : walkpgdir pgdir uva false m' ≡ (some (pte_at t va), m') =
        walkpgdir-page pgdir uva va false m' same
        ∙ walkpgdir-present pgdir va t false m' (ap is_present here ∙ h.present)
            (ap pte_addr here ∙ h.leads) in
      rw walk (rw gone refl)

-- A page that mappages maps, and deallocuvm then takes back, is on the free list again and has no
-- translation: for an aligned address of 32 bits whose page is not the last one, when the page has
-- no entry yet, and the page table is there or the allocator has an aligned page for it that is
-- not the page directory's. The page is apart from the entry of the page directory and in the
-- range of the allocator; two rounds are enough.
pub mappages-deallocuvm :
    (n pgdir va pa : ℕ) (v : Vm)
    → va % 4096 ≡ 0
    → va + 4096 < 2 ^ 32
    → IsUserPage pgdir va pa v
    → ((t : ℕ) × HasTable pgdir va t v) ⊎ NeedsTable pgdir va v
    → (v' : Vm) × (v'' : Vm) × (mappages (suc n) pgdir va 4096 pa 6 v ≡ ok (true, v'))
      × (deallocuvm (suc (suc n)) pgdir (va + 4096) va v' ≡ ok (va, v''))
      × (v''.supply ≡ pa ∷ v'.supply)
      × ((uva : ℕ) → uva / 4096 ≡ va / 4096 → uva2ka pgdir uva v'' ≡ ok none)
unfolding mappages
mappages-deallocuvm n pgdir va pa v aligned small u ready =
    let (t, w, h, walk, same_end) = walkpgdir_lem pgdir va v ready in
    let first : pgrounddown va ≡ va = omega arith in
    let last : pgrounddown ((va + 4096 + 2 ^ 32 - 1) % 2 ^ 32) ≡ va = omega arith in
    let u' : IsUserPage pgdir va pa w = record {
      aligned = u.aligned;
      not_null = u.not_null;
      good = ap (λ e. bad_page e (pa + kernbase)) same_end ∙ u.good;
      outside = u.outside;
    } in
    (
      mapped t va pa w,
      unmapped t va pa (mapped t va pa w),
      rw (first, last) (map_pages-mapped n pgdir va pa t v w h walk),
      deallocuvm-mapped pgdir va pa t w h u' n aligned small,
      refl,
      λ uva same. uva2ka-unmapped pgdir va pa t w h u' uva same,
    )
