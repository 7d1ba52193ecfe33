-- ===== src/Paging/Translation.antt =====
-- uva2ka of vm.c, and the page that mappages maps.
use soproyecto.Common.{
  ℕ, suc, ◌+◌, ◌-◌, ◌*◌, ◌/◌, ◌%◌, ◌^◌, ◌<◌, ◌∙◌, ap, sym, ◌⊎◌, inl, inr, ◌≡◌, ◌≢◌, Bool, true,
  false, not, Option, none, some, List, ◌∷◌, Run, ok, fault, ◌==◌, if◌then◌else◌, refl, arith, ltb,
  leb,
}
use Prim.Native.Nat.{bit_or}
use soproyecto.Machine.{update_self, update_ne}
use soproyecto.Paging.{
  Vm, pdx, ptx, pte_addr, pte_flags, kalloc, clear_table, is_present, is_user, pgrounddown,
  with_flags, within, write_entry, walkpgdir, mappages, map_pages,
}

-- The translation through an entry. A read through NULL faults.
abbrev pub translate : Option ℕ → Vm → Run (Option ℕ)
translate none v = fault
translate (some pte) v =
    let e = v.entries pte in
    if not (is_present e)
    then ok none
    else if not (is_user e)
    then ok none
    else ok (some (pte_addr e))

unfoldable pub uva2ka : (pgdir uva : ℕ) → Vm → Run (Option ℕ)
uva2ka pgdir uva v = translate (walkpgdir pgdir uva false v).0 v

-- An address in the page directory, and one in the page table `p`, of the entries for `va`.
abbrev pub pde_at : (pgdir va : ℕ) → ℕ
pde_at pgdir va = pgdir + 4 * pdx va

abbrev pub pte_at : (p va : ℕ) → ℕ
pte_at p va = p + 4 * ptx va

-- A page table holds the entry for `va`.
pub walkpgdir-present :
    (pgdir va t : ℕ) (alloc : Bool) (v : Vm)
    → is_present (v.entries (pde_at pgdir va)) ≡ true
    → pte_addr (v.entries (pde_at pgdir va)) ≡ t
    → walkpgdir pgdir va alloc v ≡ (some (pte_at t va), v)
unfolding walkpgdir
walkpgdir-present pgdir va t alloc v here there = rw (here, there) refl

with_flags_add :
    (pa c flags : ℕ) → pa % 4096 ≡ 0 → c < 4096 → with_flags (pa + c) flags ≡ pa + bit_or c flags
with_flags_add pa c flags aligned small =
    let low : pte_flags (pa + c) ≡ c = omega arith in
    let high : pte_addr (pa + c) ≡ pa = omega arith in rw (low, high) refl

-- The entries that walkpgdir and mappages write, for page tables and pages of user memory.
abbrev pub table_entry : ℕ → ℕ
table_entry p = with_flags p 7

abbrev pub user_entry : ℕ → ℕ
user_entry pa = with_flags (with_flags pa 6) 1

table_entry_lem : (p : ℕ) → p % 4096 ≡ 0 → table_entry p ≡ p + 7
table_entry_lem p aligned =
    let high : pte_addr p ≡ p = omega arith in
    let low : pte_flags p ≡ 0 = aligned in rw (high, low) refl

pub user_entry_lem : (pa : ℕ) → pa % 4096 ≡ 0 → user_entry pa ≡ pa + 7
user_entry_lem pa aligned =
    let high : pte_addr pa ≡ pa = omega arith in
    let first : with_flags pa 6 ≡ pa + 6 = rw (high, aligned) refl in
    ap (λ e. with_flags e 1) first ∙ with_flags_add pa 6 1 aligned (omega arith)

pub present_add : (pa : ℕ) → pa % 4096 ≡ 0 → is_present (pa + 7) ≡ true
present_add pa aligned = ground arith

user_add : (pa : ℕ) → pa % 4096 ≡ 0 → is_user (pa + 7) ≡ true
user_add pa aligned = ground arith

pub pte_addr_add : (pa : ℕ) → pa % 4096 ≡ 0 → pte_addr (pa + 7) ≡ pa
pte_addr_add pa aligned = omega arith

-- The page directory leads to the page table `table`, which has no page for `va` yet.
pub record HasTable (pgdir va table : ℕ) (v : Vm) : Type 0 where
  pub present : is_present (v.entries (pde_at pgdir va)) ≡ true
  pub leads : pte_addr (v.entries (pde_at pgdir va)) ≡ table
  pub vacant : is_present (v.entries (pte_at table va)) ≡ false
  pub apart : pte_at table va ≢ pde_at pgdir va

-- There is no page table for `va`, and a page for one outside the page directory.
pub record NeedsTable (pgdir va : ℕ) (v : Vm) : Type 0 where
  pub page : ℕ
  pub pages : List ℕ
  pub missing : is_present (v.entries (pde_at pgdir va)) ≡ false
  pub supplied : v.supply ≡ page ∷ pages
  pub aligned : page % 4096 ≡ 0
  pub outside : within page (pde_at pgdir va) ≡ false

-- The table that walkpgdir adds.
abbrev pub with_table : (pgdir va p : ℕ) → List ℕ → Vm → Vm
with_table pgdir va p ps v =
    write_entry (pde_at pgdir va) (table_entry p) (clear_table p (record v { supply = ps }))

kalloc-supply :
    (v : Vm) {p : ℕ} {ps : List ℕ}
    → v.supply ≡ p ∷ ps
    → kalloc v ≡ (some p, record v { supply = ps })
kalloc-supply v {p} {ps} h = ap (λ s. kalloc (record v { supply = s })) h

walkpgdir-add :
    (pgdir va : ℕ) (v : Vm) (n : NeedsTable pgdir va v)
    → walkpgdir pgdir va true v ≡ (some (pte_at n.page va), with_table pgdir va n.page n.pages v)
unfolding walkpgdir
walkpgdir-add pgdir va v n = rw (n.missing, kalloc-supply v n.supplied) refl

-- The entries of the page `p` that walkpgdir clears are apart from one outside it.
pte-within : (p va : ℕ) → within p (pte_at p va) ≡ true
pte-within p va =
    let small : ptx va < 1024 = omega arith in
    let low : leb p (pte_at p va) ≡ true = ground arith in
    let high : ltb (pte_at p va) (p + 4096) ≡ true = ground arith in rw (low, high) refl

pte_ne_outside :
    (pgdir va p : ℕ) → within p (pde_at pgdir va) ≡ false → pte_at p va ≢ pde_at pgdir va
pte_ne_outside pgdir va p out e =
    let both : true ≡ false = sym (pte-within p va) ∙ ap (within p) e ∙ out in ground (arith, both)

with_table-HasTable :
    (pgdir va : ℕ) (v : Vm) (n : NeedsTable pgdir va v)
    → HasTable pgdir va n.page (with_table pgdir va n.page n.pages v)
with_table-HasTable pgdir va v n =
    let p = n.page in
    let cleared : Vm = clear_table p (record v { supply = n.pages }) in
    let made : Vm = with_table pgdir va p n.pages v in
    let apart : pte_at p va ≢ pde_at pgdir va = pte_ne_outside pgdir va p n.outside in
    let here : made.entries (pde_at pgdir va) ≡ p + 7 =
      update_self cleared.entries (pde_at pgdir va) _ ∙ table_entry_lem p n.aligned in
    let there : made.entries (pte_at p va) ≡ 0 =
      update_ne cleared.entries (pde_at pgdir va) (pte_at p va) (table_entry p) (λ e. apart (sym e))
      ∙ ap (λ b. if b then 0 else v.entries (pte_at p va)) (pte-within p va) in
    record {
      present = ap is_present here ∙ present_add p n.aligned;
      leads = ap pte_addr here ∙ pte_addr_add p n.aligned;
      vacant = ap is_present there;
      apart = apart;
    }

-- Where walkpgdir leads: to the table that is there, or to the one that it adds.
pub walkpgdir_lem :
    (pgdir va : ℕ) (v : Vm)
    → ((t : ℕ) × HasTable pgdir va t v) ⊎ NeedsTable pgdir va v
    → (t : ℕ) × (w : Vm) × HasTable pgdir va t w
      × (walkpgdir pgdir va true v ≡ (some (pte_at t va), w))
      × (w.kernel_end ≡ v.kernel_end)
walkpgdir_lem pgdir va v (inl (t, h)) =
    (t, v, h, walkpgdir-present pgdir va t true v h.present h.leads, refl)
walkpgdir_lem pgdir va v (inr n) = (
  n.page,
  with_table pgdir va n.page n.pages v,
  with_table-HasTable pgdir va v n,
  walkpgdir-add pgdir va v n,
  refl,
)

-- The page tables after the page at `pa` has got its entry.
abbrev pub mapped : (table va pa : ℕ) → Vm → Vm
mapped table va pa w = write_entry (pte_at table va) (user_entry pa) w

pub map_pages-mapped :
    (n pgdir va pa t : ℕ) (v w : Vm) (h : HasTable pgdir va t w)
    → walkpgdir pgdir va true v ≡ (some (pte_at t va), w)
    → map_pages (suc n) pgdir va va pa 6 v ≡ ok (true, mapped t va pa w)
unfolding map_pages
map_pages-mapped n pgdir va pa t v w h walk =
    let same : (va == va) ≡ true = ground arith in rw (walk, h.vacant, same) refl

-- An address in the page of `va` has the same entries.
pub walkpgdir-page :
    (pgdir uva va : ℕ) (alloc : Bool) (v : Vm)
    → uva / 4096 ≡ va / 4096
    → walkpgdir pgdir uva alloc v ≡ walkpgdir pgdir va alloc v
unfolding walkpgdir
walkpgdir-page pgdir uva va alloc v same =
    let directory : pdx uva ≡ pdx va = omega arith in
    let table : ptx uva ≡ ptx va = ap (λ q. q % 1024) same in rw (directory, table) refl

uva2ka-mapped :
    (pgdir va pa uva t : ℕ) (w : Vm) (h : HasTable pgdir va t w)
    → pa % 4096 ≡ 0
    → uva / 4096 ≡ va / 4096
    → uva2ka pgdir uva (mapped t va pa w) ≡ ok (some pa)
unfolding uva2ka
uva2ka-mapped pgdir va pa uva t w h aligned same =
    let m : Vm = mapped t va pa w in
    let entry : m.entries (pte_at t va) ≡ pa + 7 =
      update_self w.entries (pte_at t va) (user_entry pa) ∙ user_entry_lem pa aligned in
    let kept : m.entries (pde_at pgdir va) ≡ w.entries (pde_at pgdir va) =
      update_ne w.entries (pte_at t va) (pde_at pgdir va) (user_entry pa) h.apart in
    let walk : walkpgdir pgdir uva false m ≡ (some (pte_at t va), m) =
      walkpgdir-page pgdir uva va false m same
      ∙ walkpgdir-present pgdir va t false m (ap is_present kept ∙ h.present)
          (ap pte_addr kept ∙ h.leads) in
    rw walk
      (rw entry (rw (present_add pa aligned, user_add pa aligned, pte_addr_add pa aligned) refl))

-- A page of user memory that mappages maps is the one that uva2ka finds, at every address in the
-- page: for aligned addresses of 32 bits, when the page has no entry yet, and the page table is
-- there or the allocator has an aligned page for it that is not the page directory's.
pub mappages-uva2ka :
    (n pgdir va pa : ℕ) (v : Vm)
    → va % 4096 ≡ 0
    → va < 2 ^ 32
    → pa % 4096 ≡ 0
    → ((t : ℕ) × HasTable pgdir va t v) ⊎ NeedsTable pgdir va v
    → (v' : Vm) × (mappages (suc n) pgdir va 4096 pa 6 v ≡ ok (true, v'))
      × ((uva : ℕ) → uva / 4096 ≡ va / 4096 → uva2ka pgdir uva v' ≡ ok (some pa))
unfolding mappages
mappages-uva2ka n pgdir va pa v aligned small page ready =
    let (t, w, h, walk, _) = walkpgdir_lem pgdir va v ready in
    let first : pgrounddown va ≡ va = omega arith in
    let last : pgrounddown ((va + 4096 + 2 ^ 32 - 1) % 2 ^ 32) ≡ va = omega arith in
    (
      mapped t va pa w,
      rw (first, last) (map_pages-mapped n pgdir va pa t v w h walk),
      λ uva same. uva2ka-mapped pgdir va pa uva t w h page same,
    )
