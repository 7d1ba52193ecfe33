-- ===== src/Kalloc/Uniform.antt =====
-- With free blocks of one page each, as kfree makes them, best fit is last in, first out.
use soproyecto.Common.{
  ℕ, ◌+◌, ◌<◌, ◌≡◌, refl, sym, ap, subst, ◌∙◌, false, inl, inr, List, [], ◌∷◌, ◌++◌, ok, ◌>>=◌,
  arith, length,
}
use soproyecto.Machine.Locks.{MayLock}
use soproyecto.Kalloc.{Kmem, Block, pgsize, kmem_lock, kalloc, kfree, bad_page}
use soproyecto.Kalloc.Chain.{All, Apart}
use soproyecto.Kalloc.Search.{Worse}
use soproyecto.Kalloc.Pages.{
  IsFree, IsPaged, Allocated, kalloc_lem, kfree-freed, freed, freed-IsFree, freed-IsPaged,
  outside-MayLock, page_ne_zero,
}

abbrev Sized : (ℕ → Block) → List ℕ → Type 0
Sized mem xs = All (λ a. (mem a).size ≡ pgsize) xs

Sized-at :
    (mem : ℕ → Block) (ys zs : List ℕ) (b : ℕ) → Sized mem (ys ++ b ∷ zs) → (mem b).size ≡ pgsize
Sized-at mem [] zs b p = p.0
Sized-at mem (y ∷ ys) zs b p = Sized-at mem ys zs b p.1

-- Among blocks of one size nothing stands before the best.
nothing_before :
    (mem : ℕ → Block) (ys zs : List ℕ) (b : ℕ)
    → Sized mem (ys ++ b ∷ zs)
    → All (Worse mem b) ys
    → ys ≡ []
nothing_before mem [] zs b p worse = refl
nothing_before mem (y ∷ ys) zs b p worse =
    let size : (mem b).size ≡ pgsize = Sized-at mem ys zs b p.1 in
    let size_y : (mem y).size ≡ pgsize = p.0 in
    let w : Worse mem b y = worse.0 in absurd (omega arith)

abbrev head_or : List ℕ → ℕ
head_or [] = 0
head_or (x ∷ xs) = x

abbrev rest_of : List ℕ → List ℕ
rest_of [] = []
rest_of (x ∷ xs) = xs

-- The first block of a list of pages is what kalloc gives, and the others are what it leaves.
pub kalloc-first :
    (fuel : ℕ) (k : Kmem) (x : ℕ) (xs : List ℕ)
    → MayLock kmem_lock k.machine
    → IsFree k (x ∷ xs)
    → IsPaged k (x ∷ xs)
    → length (x ∷ xs) < fuel
    → (k' : Kmem) × (kalloc fuel k ≡ ok (x, k')) × IsFree k' xs
kalloc-first fuel k x xs may free paged enough = go (kalloc_lem fuel k (x ∷ xs) may free enough)
  where
    go :
        (a : ℕ) × (k' : Kmem) × (kalloc fuel k ≡ ok (a, k')) × Allocated k (x ∷ xs) a k'
        → (k' : Kmem) × (kalloc fuel k ≡ ok (x, k')) × IsFree k' xs
    go (a, k', e, inl (_, small, _)) =
        let page : (k.mem x).size ≡ pgsize = paged.0 in
        let less : (k.mem x).size < pgsize = small.0 in absurd (omega arith)
    go (a, k', e, inr (_, prev, b, left)) =
        let alone =
          nothing_before k.mem b.before b.after a (subst (Sized k.mem) b.splits paged) b.worse in
        let split : x ∷ xs ≡ a ∷ b.after = b.splits ∙ ap (λ l. l ++ a ∷ b.after) alone in
        (
          k',
          e ∙ ap (λ n. ok (n, k')) (sym (ap head_or split)),
          subst (IsFree k') (ap (λ l. l ++ b.after) alone ∙ sym (ap rest_of split)) left,
        )

-- A page that has just been freed is the next one that kalloc gives, however the free list was
-- built up from single pages; and then the list is as it was.
pub kalloc-kfree :
    (fuel end v : ℕ) (k : Kmem) (xs : List ℕ)
    → MayLock kmem_lock k.machine
    → IsFree k xs
    → IsPaged k xs
    → Apart v xs
    → bad_page end v ≡ false
    → length xs + 1 < fuel
    → (k' : Kmem) × ((kfree end v k >>= kalloc fuel) ≡ ok (v, k')) × IsFree k' xs
kalloc-kfree fuel end v k xs may free paged new good enough =
    let real = page_ne_zero end v good in
    rw (kfree-freed end v k may good) (
      kalloc-first fuel (freed v k) v xs (outside-MayLock k may) (freed-IsFree v k xs free new real)
        (freed-IsPaged v k xs new paged) (omega arith))
