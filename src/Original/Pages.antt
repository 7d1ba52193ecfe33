-- ===== src/Original/Pages.antt =====
-- kalloc and kfree of both allocators, written out, for free blocks of one page each.
use soproyecto.Common.{
  ℕ, ◌<◌, ◌≡◌, ◌≢◌, refl, sym, subst, ap, ◌∙◌, true, false, Bool-cases, inl, inr, List, [], ◌∷◌, ok,
  ◌==◌, ltb, leb, ◌&&◌, ◌||◌, arith, length, if◌then◌else◌,
}
use soproyecto.Machine.{Machine, release}
use soproyecto.Machine.Locks.{MayLock, acquire-unlocked}
use soproyecto.Proc.Enter.{entered, left, release-entered}
use soproyecto.Kalloc as K
use soproyecto.Kalloc.{Block, Best, no_best, look, unlinked, search, pgsize, kmem_lock, bad_page}
use soproyecto.Kalloc.Chain.{All}
use soproyecto.Kalloc.Search.{walk, search-walk}
use soproyecto.Kalloc.Pages.{IsFree, IsPaged, lock-inside, take_best_lem, take_none}
use soproyecto.Kalloc.Pages as P
use soproyecto.Original.{
  Kmem, lock_if_used, unlock_if_used, filled, pushed_on, popped_off, kalloc, kfree,
}

abbrev Sized : (ℕ → Block) → List ℕ → Type 0
Sized mem xs = All (λ a. (mem a).size ≡ pgsize) xs

look-worse :
    (mem : ℕ → Block) (a : ℕ) (s : Best)
    → (leb pgsize (mem a).size && ((s.best == 0) || ltb (mem a).size (mem s.best).size)) ≡ false
    → look mem a s ≡ record s { prev = a }
look-worse mem a s e = rw e refl

look_first :
    (mem : ℕ → Block) (a : ℕ)
    → (mem a).size ≡ pgsize
    → look mem a no_best ≡ record { best = a; best_prev = 0; prev = a }
look_first mem a page = let fits : leb pgsize (mem a).size ≡ true = ground arith in rw fits refl

-- The search stays with the first page.
walk_stays :
    (mem : ℕ → Block) (xs : List ℕ) (s : Best)
    → s.best ≢ 0
    → (mem s.best).size ≡ pgsize
    → Sized mem xs
    → ((walk mem xs s).best ≡ s.best) × ((walk mem xs s).best_prev ≡ s.best_prev)
walk_stays mem [] s real page sized = (refl, refl)
walk_stays mem (a ∷ xs) s real page sized =
    let same : look mem a s ≡ record s { prev = a } =
      look-worse mem a s (ground (arith, real, page, sized.0)) in
    subst (λ b. ((walk mem xs b).best ≡ s.best) × ((walk mem xs b).best_prev ≡ s.best_prev))
      (sym same) (walk_stays mem xs (record s { prev = a }) real page sized.1)

unlinked-first :
    (k : K.Kmem) (s : Best)
    → s.best_prev ≡ 0
    → unlinked s k ≡ record k { freelist = (k.mem s.best).next }
unlinked-first k s first = let start : (s.best_prev == 0) ≡ true = ground arith in rw start refl

-- The machine within the lock of the allocator, if it is in use, and after it.
abbrev inside : Kmem → Machine
inside k = if k.use_lock then entered kmem_lock k.machine else k.machine

abbrev pub outside : Kmem → Machine
outside k = if k.use_lock then left k.machine else k.machine

lock-used :
    (k : Kmem) → MayLock kmem_lock k.machine → lock_if_used k ≡ ok (record k { machine = inside k })
unfolding lock_if_used
lock-used k may = elim (Bool-cases k.use_lock) [
  | inl used ↦ rw used (rw (acquire-unlocked kmem_lock k.machine may.free may.room) refl)
  | inr unused ↦ rw unused refl
]

unlock-used :
    (k s : Kmem)
    → MayLock kmem_lock k.machine
    → s.use_lock ≡ k.use_lock
    → s.machine ≡ inside k
    → unlock_if_used s ≡ ok (record s { machine = outside k })
unfolding unlock_if_used
unlock-used k s may same at = elim (Bool-cases k.use_lock) [
  | inl used ↦
      let on : s.use_lock ≡ true = same ∙ used in
      let here : s.machine ≡ entered kmem_lock k.machine =
        at ∙ ap (λ b. if b then entered kmem_lock k.machine else k.machine) used in
      rw (on, used)
        (rw (ap (release kmem_lock) here ∙ release-entered kmem_lock k.machine may) refl)
  | inr unused ↦
      let off : s.use_lock ≡ false = same ∙ unused in
      let here : s.machine ≡ k.machine =
        at ∙ ap (λ b. if b then entered kmem_lock k.machine else k.machine) unused in
      rw (off, unused) (λ i. ok (record s { use_lock = false; machine = here i }))
]

abbrev pub head_or : List ℕ → ℕ
head_or [] = 0
head_or (x ∷ xs) = x

-- The modified allocator after it has handed out the head of its list.
abbrev pub taken : List ℕ → K.Kmem → K.Kmem
taken [] k = record k { machine = P.outside k }
taken (x ∷ xs) k = record k { machine = P.outside k; freelist = (k.mem x).next }

pub kalloc-taken :
    (fuel : ℕ) (k : K.Kmem) (xs : List ℕ)
    → MayLock kmem_lock k.machine
    → IsFree k xs
    → IsPaged k xs
    → length xs < fuel
    → K.kalloc fuel k ≡ ok (head_or xs, taken xs k)
unfolding K.kalloc
kalloc-taken fuel k [] may free paged enough = rw (lock-inside k may) (
    rw (search-walk fuel k.mem k.freelist [] no_best free.chain enough)
      (take_none k no_best may refl))
kalloc-taken fuel k (x ∷ xs) may free paged enough =
    let s₀ : Best = record { best = x; best_prev = 0; prev = x } in
    let s = walk k.mem xs (look k.mem x no_best) in
    let (best, prev) =
      subst (λ b. ((walk k.mem xs b).best ≡ x) × ((walk k.mem xs b).best_prev ≡ 0))
        (sym (look_first k.mem x paged.0)) (walk_stays k.mem xs s₀ free.chain.1 paged.0 paged.1) in
    rw (lock-inside k may) (
      rw (search-walk fuel k.mem k.freelist (x ∷ xs) no_best free.chain enough) (
        take_best_lem k s may (λ e. free.chain.1 (sym best ∙ e))
        ∙ (λ i. ok (best i, record (unlinked-first k s prev i) { machine = P.outside k }))
        ∙ (λ i. ok (x, record k { machine = P.outside k; freelist = (k.mem (best i)).next }))))

pub kfree-pushed :
    (end v : ℕ) (k : Kmem)
    → MayLock kmem_lock k.machine
    → bad_page end v ≡ false
    → kfree end v k ≡ ok (record (pushed_on v (filled v k)) { machine = outside k })
unfolding kfree
kfree-pushed end v k may good = rw good (
    rw (lock-used (filled v k) may)
      (unlock-used k (record (pushed_on v (filled v k)) { machine = inside k }) may refl refl))

pub kalloc-popped :
    (k : Kmem)
    → MayLock kmem_lock k.machine
    → kalloc k ≡ ok (k.freelist, record (popped_off k) { machine = outside k })
unfolding kalloc
kalloc-popped k may = elim (Bool-cases (k.freelist == 0)) [
  | inl e ↦
      rw (lock-used k may)
        (rw e (rw (unlock-used k (record k { machine = inside k }) may refl refl) refl))
  | inr e ↦ rw (lock-used k may) (
      rw e (
        rw
          (unlock-used k (record k { machine = inside k; freelist = k.next k.freelist }) may refl
            refl)
          refl))
]
