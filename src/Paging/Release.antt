-- ===== src/Paging/Release.antt =====
-- deallocuvm and freevm come to an end.
use soproyecto.Common.{
  ℕ, zero, suc, ◌+◌, ◌*◌, ◌%◌, ◌^◌, ◌<◌, ◌≤◌, ◌≡◌, inl, inr, Option, none, some, refl, Bool-cases,
  Bool, true, false, Run, ok, stop, ◌>>=◌, Panic, arith, leb, ltb, ◌==◌, if◌then◌else◌,
}
use soproyecto.Kalloc.{bad_page, kernbase}
use soproyecto.Paging.{Vm, pte_addr, pgroundup, kfree, walkpgdir}
use soproyecto.Paging.Space.{next_page, drop_at, dealloc_pages, deallocuvm, free_tables, freevm}

-- The code returns, or it panics: it neither waits for ever nor reads through a null pointer.
pub data Ends {A : Type 0} (r : Run A) : Type 0 where
  returns : (a : A) → r ≡ ok a → Ends r
  panics : (p : Panic) → r ≡ stop p → Ends r

Ends-ok : {A : Type 0} (a : A) → Ends (ok a)
Ends-ok a = returns a refl

Ends-stop : {A : Type 0} (p : Panic) → Ends {A = A} (stop p)
Ends-stop p = panics p refl

Ends-bind :
    {A B : Type 0} {f : A → Run B} (r : Run A) → Ends r → ((a : A) → Ends (f a)) → Ends (r >>= f)
Ends-bind r (returns a e) k = rw e (k a)
Ends-bind r (panics p e) k = rw e (Ends-stop p)

Ends-if : {A : Type 0} (b : Bool) {r s : Run A} → Ends r → Ends s → Ends (if b then r else s)
Ends-if true r s = r
Ends-if false r s = s

kfree-Ends : (p : ℕ) (v : Vm) → Ends (kfree p v)
unfolding kfree
kfree-Ends p v = Ends-if (bad_page v.kernel_end (p + kernbase)) (Ends-stop _) (Ends-ok _)

drop_at-Ends : (pte : Option ℕ) (v : Vm) → Ends (drop_at pte v)
drop_at-Ends none v = Ends-ok v
drop_at-Ends (some pte) v = Ends-if _ (Ends-ok v) (
    Ends-if (pte_addr (v.entries pte) == 0) (Ends-stop _)
      (Ends-bind _ (kfree-Ends (pte_addr (v.entries pte)) v) (λ w. Ends-ok _)))

-- The walk goes on by at least a page, and stays at the start of a page.
next_page-grows :
    (a : ℕ) (pte : Option ℕ)
    → a % 4096 ≡ 0
    → a < kernbase
    → (next_page a pte % 4096 ≡ 0) × (a + 4096 ≤ next_page a pte)
next_page-grows a none aligned low = (omega arith, omega arith)
next_page-grows a (some pte) aligned low = (omega arith, omega arith)

dealloc_pages-Ends :
    (n pgdir a oldsz : ℕ) (v : Vm)
    → oldsz ≤ kernbase
    → a % 4096 ≡ 0
    → oldsz ≤ a + n * 4096
    → Ends (dealloc_pages (suc n) pgdir a oldsz v)
unfolding dealloc_pages
dealloc_pages-Ends zero pgdir a oldsz v top aligned enough =
    let above : ltb a oldsz ≡ false = ground arith in rw above (Ends-ok v)
dealloc_pages-Ends (suc n) pgdir a oldsz v top aligned enough = elim (Bool-cases (ltb a oldsz)) [
  | inl below ↦
      let pte = (walkpgdir pgdir a false v).0 in
      let (aligned', grows) = next_page-grows a pte aligned (ground (arith, below)) in
      rw below (
        Ends-bind (drop_at pte v) (drop_at-Ends pte v)
          (λ w. dealloc_pages-Ends n pgdir (next_page a pte) oldsz w top aligned' (omega arith)))
  | inr above ↦ rw above (Ends-ok v)
]

deallocuvm-Ends :
    (n pgdir oldsz newsz : ℕ) (v : Vm)
    → oldsz ≤ kernbase
    → 2 ^ 19 ≤ n
    → Ends (deallocuvm (suc n) pgdir oldsz newsz v)
unfolding deallocuvm
deallocuvm-Ends n pgdir oldsz newsz v top enough = elim (Bool-cases (leb oldsz newsz)) [
  | inl grows ↦ rw grows (Ends-ok _)
  | inr shrinks ↦
      let less : newsz < oldsz = ground (arith, shrinks) in
      let start : pgroundup newsz % 4096 ≡ 0 = omega arith in
      rw shrinks (
        Ends-bind (dealloc_pages (suc n) pgdir (pgroundup newsz) oldsz v)
          (dealloc_pages-Ends n pgdir (pgroundup newsz) oldsz v top start (omega arith))
          (λ w. Ends-ok _))
]

free_tables-Ends : (n pgdir i : ℕ) (v : Vm) → Ends (free_tables n pgdir i v)
unfolding free_tables
free_tables-Ends zero pgdir i v = Ends-ok v
free_tables-Ends (suc n) pgdir i v =
    Ends-bind _ (Ends-if _ (kfree-Ends _ v) (Ends-ok v)) (λ w. free_tables-Ends n pgdir (i + 1) w)

-- freevm returns or panics, whatever the page tables hold: 2 ^ 19 + 1 rounds are
-- enough for its loops.
pub freevm-Ends : (n pgdir : ℕ) (v : Vm) → 2 ^ 19 ≤ n → Ends (freevm (suc n) pgdir v)
unfolding freevm
freevm-Ends n pgdir v enough = Ends-if (pgdir == 0) (Ends-stop _) (
    Ends-bind (deallocuvm (suc n) pgdir kernbase 0 v)
      (deallocuvm-Ends n pgdir kernbase 0 v (omega arith) enough)
      (λ r.
        Ends-bind (free_tables 1024 pgdir 0 r.1) (free_tables-Ends 1024 pgdir 0 r.1)
          (λ w. kfree-Ends pgdir w)))
