-- ===== src/Original/Agreement.antt =====
-- The best-fit allocator and the original one give the same answers to the same requests.
use soproyecto.Common.{
  ℕ, ◌+◌, ◌<◌, ◌≤◌, ◌≡◌, refl, sym, subst, ◌≢◌, ap, ◌∙◌, true, false, List, [], ◌∷◌, Run, ok, ◌>>=◌,
  ◌==◌, arith, length, if◌then◌else◌,
}
use soproyecto.Machine.Locks.{MayLock}
use soproyecto.Proc.Enter.{left}
use soproyecto.Kalloc as K
use soproyecto.Kalloc.{kmem_lock, bad_page}
use soproyecto.Kalloc.Chain.{Apart}
use soproyecto.Kalloc.Pages as P
use soproyecto.Kalloc.Pages.{
  IsFree, IsPaged, freed, freed-IsFree, freed-IsPaged, kfree-freed, page_ne_zero, outside-MayLock,
}
use soproyecto.Original.{Kmem, kalloc, kfree, filled, pushed_on, popped_off}
use soproyecto.Original.Pages.{head_or, taken, kalloc-taken, outside, kfree-pushed, kalloc-popped}

pub data Request : Type 0 where
  give_back : ℕ → Request
  get : Request

-- The pages that the requests get from the best-fit allocator, and from the original one.
unfoldable pub serve_best_fit : (fuel end : ℕ) → List Request → K.Kmem → Run (List ℕ)
serve_best_fit fuel end [] k = ok []
serve_best_fit fuel end (give_back v ∷ rs) k = do k ← K.kfree end v k; serve_best_fit fuel end rs k
serve_best_fit fuel end (get ∷ rs) k = do
  (a, k) ← K.kalloc fuel k
  pages ← serve_best_fit fuel end rs k
  ok (a ∷ pages)

unfoldable pub serve_original : (end : ℕ) → List Request → Kmem → Run (List ℕ)
serve_original end [] k = ok []
serve_original end (give_back v ∷ rs) k = do k ← kfree end v k; serve_original end rs k
serve_original end (get ∷ rs) k = do
  (a, k) ← kalloc k
  pages ← serve_original end rs k
  ok (a ∷ pages)

abbrev pub rest_of : List ℕ → List ℕ
rest_of [] = []
rest_of (x ∷ xs) = xs

-- A stack of pages.
abbrev pub last_in_first_out : List Request → List ℕ → List ℕ
last_in_first_out [] xs = []
last_in_first_out (give_back v ∷ rs) xs = last_in_first_out rs (v ∷ xs)
last_in_first_out (get ∷ rs) xs = head_or xs ∷ last_in_first_out rs (rest_of xs)

-- The pages given back are good, and are not free already.
abbrev pub AreLegal : (end : ℕ) → List Request → List ℕ → Type 0
AreLegal end [] xs = Unit {0}
AreLegal end (give_back v ∷ rs) xs =
    (bad_page end v ≡ false) × Apart v xs × AreLegal end rs (v ∷ xs)
AreLegal end (get ∷ rs) xs = AreLegal end rs (rest_of xs)

-- Both allocators have the same free list of single pages.
pub record Agree (k : K.Kmem) (o : Kmem) (xs : List ℕ) : Type 0 where
  pub free : IsFree k xs
  pub paged : IsPaged k xs
  pub may : MayLock kmem_lock k.machine
  pub machine : o.machine ≡ k.machine
  pub use_lock : o.use_lock ≡ k.use_lock
  pub freelist : o.freelist ≡ k.freelist
  pub next : (a : ℕ) → o.next a ≡ (k.mem a).next

may_lock : (k : K.Kmem) (o : Kmem) (xs : List ℕ) → Agree k o xs → MayLock kmem_lock o.machine
may_lock k o xs g = subst (MayLock kmem_lock) (sym g.machine) g.may

same_outside : (k : K.Kmem) (o : Kmem) (xs : List ℕ) → Agree k o xs → outside o ≡ P.outside k
same_outside k o xs g = λ i. if g.use_lock i then left (g.machine i) else g.machine i

Agree-freed :
    (v : ℕ) (k : K.Kmem) (o : Kmem) (xs : List ℕ) (end : ℕ)
    → Agree k o xs
    → bad_page end v ≡ false
    → Apart v xs
    → Agree (freed v k) (record (pushed_on v (filled v o)) { machine = outside o }) (v ∷ xs)
Agree-freed v k o xs end g good new = record {
  free = freed-IsFree v k xs g.free new (page_ne_zero end v good);
  paged = freed-IsPaged v k xs new g.paged;
  may = outside-MayLock k g.may;
  machine = same_outside k o xs g;
  use_lock = g.use_lock;
  freelist = refl;
  next = λ a. ground (arith, g.next a, g.freelist);
}

popped-none : (o : Kmem) → o.freelist ≡ 0 → popped_off o ≡ o
popped-none o e = let empty : (o.freelist == 0) ≡ true = ground arith in rw empty refl

popped-some : (o : Kmem) → o.freelist ≢ 0 → popped_off o ≡ record o { freelist = o.next o.freelist }
popped-some o ne = let filled : (o.freelist == 0) ≡ false = ground arith in rw filled refl

Agree-taken :
    (k : K.Kmem) (o : Kmem) (xs : List ℕ)
    → Agree k o xs
    → Agree (taken xs k) (record (popped_off o) { machine = outside o }) (rest_of xs)
Agree-taken k o [] g =
    subst (λ q. Agree (taken [] k) (record q { machine = outside o }) [])
      (sym (popped-none o (g.freelist ∙ g.free.chain)))
      (record {
        free = record { chain = g.free.chain; distinct = tt };
        paged = tt;
        may = outside-MayLock k g.may;
        machine = same_outside k o [] g;
        use_lock = g.use_lock;
        freelist = g.freelist;
        next = g.next;
      })
Agree-taken k o (x ∷ xs) g =
    let first : o.freelist ≡ x = g.freelist ∙ g.free.chain.0 in
    subst (λ q. Agree (taken (x ∷ xs) k) (record q { machine = outside o }) xs)
      (sym (popped-some o (λ e. g.free.chain.1 (sym first ∙ e))))
      (record {
        free = record { chain = g.free.chain.2; distinct = g.free.distinct.1 };
        paged = g.paged.1;
        may = outside-MayLock k g.may;
        machine = same_outside k o (x ∷ xs) g;
        use_lock = g.use_lock;
        freelist = g.next o.freelist ∙ ap (λ a. (k.mem a).next) first;
        next = g.next;
      })

length-rest_of : (xs : List ℕ) → length (rest_of xs) ≤ length xs
length-rest_of [] = omega arith
length-rest_of (x ∷ xs) = omega arith

freelist_head : (k : K.Kmem) (o : Kmem) (xs : List ℕ) → Agree k o xs → o.freelist ≡ head_or xs
freelist_head k o [] g = g.freelist ∙ g.free.chain
freelist_head k o (x ∷ xs) g = g.freelist ∙ g.free.chain.0

-- On the same free list of single pages, with enough fuel for the search, both allocators serve
-- any legal requests, in any order, with the same pages: those that a stack would give.
pub serve-eq :
    (fuel end : ℕ) (rs : List Request) (k : K.Kmem) (o : Kmem) (xs : List ℕ)
    → Agree k o xs
    → AreLegal end rs xs
    → length xs + length rs < fuel
    → (serve_best_fit fuel end rs k ≡ ok (last_in_first_out rs xs))
      × (serve_original end rs o ≡ ok (last_in_first_out rs xs))
unfolding serve_best_fit serve_original
serve-eq fuel end [] k o xs g legal enough = (refl, refl)
serve-eq fuel end (give_back v ∷ rs) k o xs g (good, new, legal) enough =
    let again =
      serve-eq fuel end rs (freed v k) (record (pushed_on v (filled v o)) { machine = outside o })
        (v ∷ xs) (Agree-freed v k o xs end g good new) legal (omega arith) in
    (
      rw (kfree-freed end v k g.may good) again.0,
      rw (kfree-pushed end v o (may_lock k o xs g) good) again.1,
    )
serve-eq fuel end (get ∷ rs) k o xs g legal enough =
    let again =
      serve-eq fuel end rs (taken xs k) (record (popped_off o) { machine = outside o }) (rest_of xs)
        (Agree-taken k o xs g) legal (omega (arith, length-rest_of xs)) in
    (
      rw (kalloc-taken fuel k xs g.may g.free g.paged (omega arith)) (rw again.0 refl),
      rw (kalloc-popped o (may_lock k o xs g))
          (rw again.1 (λ i. ok (freelist_head k o xs g i ∷ last_in_first_out rs (rest_of xs)))),
    )
