-- ===== src/Kalloc/Pages.antt =====
-- kalloc and kfree on the free list.
use soproyecto.Common.{
  ℕ, ◌<◌, ◌≡◌, ◌≢◌, refl, sym, ap, subst, ◌∙◌, true, false, Bool-cases, ◌⊎◌, inl, inr, some, List,
  [], ◌∷◌, ◌++◌, ok, stop, panic_kfree, ◌==◌, arith, length, if◌then◌else◌,
}
use soproyecto.Machine.{Machine, update, release}
use soproyecto.Machine.Locks.{MayLock, acquire-unlocked}
use soproyecto.Proc.Enter.{entered, left, release-entered, MayLock-left}
use soproyecto.Kalloc.{
  Kmem, Best, no_best, search, pgsize, kmem_lock, lock_if_used, unlock_if_used, unlinked, take_best,
  kalloc, kfree, bad_page, linked,
}
use soproyecto.Kalloc.Chain.{
  Chain, Chain-update, Chain-unlink, Chain-last, Apart, Distinct, Distinct-unlink, All, last_or,
}
use soproyecto.Kalloc.Search.{Known, IsBest, TooSmall, search-Known}

-- The free list is a chain of the blocks `xs`, and no block is in it twice.
pub record IsFree (k : Kmem) (xs : List ℕ) : Type 0 where
  pub chain : Chain k.mem k.freelist xs
  pub distinct : Distinct xs

-- Every free block is one page, as kfree makes it.
abbrev pub IsPaged : Kmem → List ℕ → Type 0
IsPaged k xs = All (λ a. (k.mem a).size ≡ pgsize) xs

-- The machine within the lock of the allocator, if it is in use, and after it.
abbrev pub inside : Kmem → Machine
inside k = if k.use_lock then entered kmem_lock k.machine else k.machine

abbrev pub outside : Kmem → Machine
outside k = if k.use_lock then left k.machine else k.machine

pub lock-inside :
    (k : Kmem) → MayLock kmem_lock k.machine → lock_if_used k ≡ ok (record k { machine = inside k })
unfolding lock_if_used
lock-inside k may = elim (Bool-cases k.use_lock) [
  | inl used ↦ rw used (rw (acquire-unlocked kmem_lock k.machine may.free may.room) refl)
  | inr unused ↦ rw unused refl
]

unlock-outside :
    (k s : Kmem)
    → MayLock kmem_lock k.machine
    → s.use_lock ≡ k.use_lock
    → s.machine ≡ inside k
    → unlock_if_used s ≡ ok (record s { machine = outside k })
unfolding unlock_if_used
unlock-outside k s may same at = elim (Bool-cases k.use_lock) [
  | inl used ↦
      let on : s.use_lock ≡ true = same ∙ used in
      let here : s.machine ≡ entered kmem_lock k.machine =
        at ∙ ap (λ b. if b then entered kmem_lock k.machine else k.machine) used in
      rw (on, used)
        (rw (ap (release kmem_lock) here ∙ release-entered kmem_lock k.machine may) refl)
  | inr unused ↦
      let off : s.use_lock ≡ false = same ∙ unused in
      let here : s.machine ≡ k.machine =
        at ∙ ap (λ b. if b then entered kmem_lock k.machine else k.machine) unused in
      rw (off, unused) (λ i. ok (record s { use_lock = false; machine = here i }))
]

pub page_ne_zero : (end v : ℕ) → bad_page end v ≡ false → v ≢ 0
page_ne_zero end v good = ground (arith, good)

-- The allocator after the page `v` has been freed.
abbrev pub freed : ℕ → Kmem → Kmem
freed v k = record (linked v k) { machine = outside k }

pub kfree-freed :
    (end v : ℕ) (k : Kmem)
    → MayLock kmem_lock k.machine
    → bad_page end v ≡ false
    → kfree end v k ≡ ok (freed v k)
unfolding kfree
kfree-freed end v k may good = rw good (
    rw (lock-inside k may)
      (unlock-outside k (linked v (record k { machine = inside k })) may refl refl))

same_page : (v : ℕ) → (v == v) ≡ true
same_page v = ground arith

pub size-freed : (v : ℕ) (k : Kmem) → ((freed v k).mem v).size ≡ pgsize
size-freed v k = rw (same_page v) refl

pub freed-IsFree :
    (v : ℕ) (k : Kmem) (xs : List ℕ)
    → IsFree k xs
    → Apart v xs
    → v ≢ 0
    → IsFree (freed v k) (v ∷ xs)
freed-IsFree v k xs free new real = record {
  chain = (
    refl,
    real,
    rw (same_page v) (
        Chain-update _ v _ k.freelist xs new (
          Chain-update _ v _ k.freelist xs new
            (Chain-update k.mem v _ k.freelist xs new free.chain))),
  );
  distinct = (new, free.distinct);
}

size-freed_ne : (v : ℕ) (k : Kmem) (a : ℕ) → v ≢ a → ((freed v k).mem a).size ≡ (k.mem a).size
size-freed_ne v k a apart = let other : (v == a) ≡ false = ground arith in rw other refl

pub freed-IsPaged :
    (v : ℕ) (k : Kmem) (xs : List ℕ) → Apart v xs → IsPaged k xs → IsPaged (freed v k) (v ∷ xs)
freed-IsPaged v k xs new paged = (size-freed v k, go xs new paged)
  where
    go : (l : List ℕ) → Apart v l → IsPaged k l → IsPaged (freed v k) l
    go [] n p = tt
    go (a ∷ l) n p = (size-freed_ne v k a n.0 ∙ p.0, go l n.1 p.1)

pub outside-MayLock : (k : Kmem) → MayLock kmem_lock k.machine → MayLock kmem_lock (outside k)
outside-MayLock k may = elim (Bool-cases k.use_lock) [
  | inl used ↦ rw used (MayLock-left kmem_lock k.machine may)
  | inr unused ↦ rw unused may
]

-- A good page that is not free goes in front of the free list, as a block of one page; single
-- pages stay single pages.
pub kfree_lem :
    (end v : ℕ) (k : Kmem) (xs : List ℕ)
    → MayLock kmem_lock k.machine
    → IsFree k xs
    → IsPaged k xs
    → Apart v xs
    → bad_page end v ≡ false
    → (k' : Kmem) × (kfree end v k ≡ ok k') × IsFree k' (v ∷ xs) × IsPaged k' (v ∷ xs)
kfree_lem end v k xs may free paged new good = (
  freed v k,
  kfree-freed end v k may good,
  freed-IsFree v k xs free new (page_ne_zero end v good),
  freed-IsPaged v k xs new paged,
)

pub kfree-bad : (end v : ℕ) (k : Kmem) → bad_page end v ≡ true → kfree end v k ≡ stop panic_kfree
unfolding kfree
kfree-bad end v k bad = rw bad refl

-- What kalloc has done with the free list `xs`, if it returns `a`.
abbrev pub Allocated : Kmem → List ℕ → ℕ → Kmem → Type 0
Allocated k xs a k' =
    ((a ≡ 0) × All (TooSmall k.mem) xs × IsFree k' xs)
    ⊎ ((a ≢ 0) × (prev : ℕ) × (b : IsBest k.mem xs a prev) × IsFree k' (b.before ++ b.after))

unlinked_later :
    (k : Kmem) (s : Best)
    → (s.best_prev == 0) ≡ false
    → unlinked s k ≡ record k {
      mem = update k.mem s.best_prev (record (k.mem s.best_prev) { next = (k.mem s.best).next });
    }
unlinked_later k s later = rw later refl

unlinked-Chain :
    (k : Kmem) (s : Best) (ys zs : List ℕ)
    → s.best_prev ≡ last_or 0 ys
    → Distinct (ys ++ s.best ∷ zs)
    → Chain k.mem k.freelist (ys ++ s.best ∷ zs)
    → Chain (unlinked s k).mem (unlinked s k).freelist (ys ++ zs)
unlinked-Chain k s [] zs at d c =
    let first : (s.best_prev == 0) ≡ true = ground arith in rw first c.2
unlinked-Chain k s (y ∷ ys) zs at d c =
    let later : (s.best_prev == 0) ≡ false =
      ground (arith, at, Chain-last k.mem k.freelist y ys (s.best ∷ zs) c) in
    subst (λ (u : Kmem). Chain u.mem u.freelist (y ∷ ys ++ zs)) (sym (unlinked_later k s later))
      (subst
        (λ q.
          Chain (update k.mem q (record (k.mem q) { next = (k.mem s.best).next })) k.freelist
            (y ∷ ys ++ zs))
        (sym at) (Chain-unlink k.mem k.freelist y s.best ys zs d c))

-- Taking the best block out leaves the other blocks, in order.
unlinked-IsFree :
    (k : Kmem) (xs : List ℕ) (s : Best)
    → IsFree k xs
    → (b : IsBest k.mem xs s.best s.best_prev) → IsFree (unlinked s k) (b.before ++ b.after)
unlinked-IsFree k xs s free b = record {
  chain =
      unlinked-Chain k s b.before b.after b.prev_of (subst Distinct b.splits free.distinct)
        (subst (Chain k.mem k.freelist) b.splits free.chain);
  distinct = Distinct-unlink b.before b.after s.best (subst Distinct b.splits free.distinct);
}

pub take_best_lem :
    (k : Kmem) (s : Best)
    → MayLock kmem_lock k.machine
    → s.best ≢ 0
    → take_best (record k { machine = inside k }) (some s)
      ≡ ok (s.best, record (unlinked s k) { machine = outside k })
unfolding take_best
take_best_lem k s may something =
    let found : (s.best == 0) ≡ false = ground (arith, something) in
    elim (Bool-cases (s.best_prev == 0)) [
      | inl first ↦
          rw (found, first)
            (rw
              (unlock-outside k (record k { machine = inside k; freelist = (k.mem s.best).next })
                may refl refl)
              refl)
      | inr later ↦
          rw (found, later)
            (rw
              (unlock-outside k
                (record k {
                  machine = inside k;
                  mem =
                      update k.mem s.best_prev
                        (record (k.mem s.best_prev) { next = (k.mem s.best).next });
                })
                may refl refl)
              refl)
    ]

pub take_none :
    (k : Kmem) (s : Best)
    → MayLock kmem_lock k.machine
    → s.best ≡ 0
    → take_best (record k { machine = inside k }) (some s)
      ≡ ok (0, record k { machine = outside k })
unfolding take_best
take_none k s may nothing =
    let lost : (s.best == 0) ≡ true = ground arith in
    rw lost (rw (unlock-outside k (record k { machine = inside k }) may refl refl) refl)

-- kalloc ends, and either gives 0, when no free block has the size of a page, and leaves the list
-- as it is; or gives the first of the smallest blocks that have it, and leaves the list without
-- that block.
pub kalloc_lem :
    (fuel : ℕ) (k : Kmem) (xs : List ℕ)
    → MayLock kmem_lock k.machine
    → IsFree k xs
    → length xs < fuel
    → (a : ℕ) × (k' : Kmem) × (kalloc fuel k ≡ ok (a, k')) × Allocated k xs a k'
unfolding kalloc
kalloc_lem fuel k xs may free enough = go (search-Known fuel k.mem k.freelist xs free.chain enough)
  where
    searched :
        (s : Best)
        → search fuel k.mem k.freelist no_best ≡ some s
        → kalloc fuel k ≡ take_best (record k { machine = inside k }) (some s)
    searched s e = rw (lock-inside k may) (rw e refl)

    go :
        (s : Best) × (search fuel k.mem k.freelist no_best ≡ some s) × Known k.mem xs s
        → (a : ℕ) × (k' : Kmem) × (kalloc fuel k ≡ ok (a, k')) × Allocated k xs a k'
    go (s, e, (at, inl (nothing, small))) = (
      0,
      record k { machine = outside k },
      searched s e ∙ take_none k s may nothing,
      inl (refl, small, record { chain = free.chain; distinct = free.distinct }),
    )
    go (s, e, (at, inr (something, b))) =
        let free' = unlinked-IsFree k xs s free b in
        (
          s.best,
          record (unlinked s k) { machine = outside k },
          searched s e ∙ take_best_lem k s may something,
          inr (
            something,
            s.best_prev,
            b,
            record { chain = free'.chain; distinct = free'.distinct },
          ),
        )
