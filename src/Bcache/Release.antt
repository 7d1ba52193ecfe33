-- ===== src/Bcache/Release.antt =====
-- brelse, on the ring of buffers and the locks.
use soproyecto.Common.{
  ℕ, ◌+◌, ◌-◌, ◌%◌, ◌^◌, ◌<◌, ◌≡◌, ◌≢◌, refl, ap, ◌∙◌, true, false, not, ◌&&◌, Bool-cases, inl, inr,
  List, ◌∷◌, ◌++◌, ok, ◌==◌, if◌then◌else◌, arith,
}
use soproyecto.Machine.{Machine, update, update_self, update_ne}
use soproyecto.Machine.Locks.{MayLock}
use soproyecto.Proc.Defs.{Kernel, Proc}
use soproyecto.Proc.Enter.{entered, left, lock-entered, unlock-entered, left-left, MayLock-left}
use soproyecto.Proc.Table.{wakeup1}
use soproyecto.Proc.Sched.Switch.{IsRunner}
use soproyecto.Proc.Sched.Section.{MayUse}
use soproyecto.Sleeplock.{spin_of, free_lock}
use soproyecto.Sleeplock.Ownership.{holdingsleep_lem, releasesleep_lem}
use soproyecto.Bcache.{
  Buf, Bcache, bcache_lock, head_of, lock_of, set_next, set_prev, insert_front, unlink, lock_cache,
  unlock_cache, released, brelse,
}
use soproyecto.Bcache.Ring.{IsRing, front-IsRing, Linked_of_same}

-- What a buffer holds, links aside, is the same in both memories.
pub record SameContents (old new : Buf) : Type 0 where
  pub flags : new.flags ≡ old.flags
  pub dev : new.dev ≡ old.dev
  pub blockno : new.blockno ≡ old.blockno
  pub refcnt : new.refcnt ≡ old.refcnt

set_next-SameContents : (p v : ℕ) (m : ℕ → Buf) (c : ℕ) → SameContents (m c) (set_next p v m c)
set_next-SameContents p v m c = ground arith

set_prev-SameContents : (p v : ℕ) (m : ℕ → Buf) (c : ℕ) → SameContents (m c) (set_prev p v m c)
set_prev-SameContents p v m c = ground arith

SameContents-trans : {a b c : Buf} → SameContents a b → SameContents b c → SameContents a c
SameContents-trans s t = record {
  flags = t.flags ∙ s.flags;
  dev = t.dev ∙ s.dev;
  blockno = t.blockno ∙ s.blockno;
  refcnt = t.refcnt ∙ s.refcnt;
}

unlink-SameContents : (b : ℕ) (m : ℕ → Buf) (c : ℕ) → SameContents (m c) (unlink b m c)
unfolding unlink
unlink-SameContents b m c =
    let m₁ = set_prev (m b).next (m b).prev m in
    SameContents-trans (set_prev-SameContents (m b).next (m b).prev m c)
      (set_next-SameContents (m₁ b).prev (m₁ b).next m₁ c)

insert_front-SameContents :
    (head b : ℕ) (m : ℕ → Buf) (c : ℕ) → SameContents (m c) (insert_front head b m c)
unfolding insert_front
insert_front-SameContents head b m c =
    let m₀ = set_next b (m head).next m in
    let m₁ = set_prev b head m₀ in
    let m₂ = set_prev (m₁ head).next b m₁ in
    SameContents-trans (set_next-SameContents b (m head).next m c) (
      SameContents-trans (set_prev-SameContents b head m₀ c) (
        SameContents-trans (set_prev-SameContents (m₁ head).next b m₁ c)
          (set_next-SameContents head b m₂ c)))

-- `b->refcnt--`
abbrev one_less : ℕ → (ℕ → Buf) → ℕ → Buf
one_less b m = update m b (record (m b) { refcnt = ((m b).refcnt + 2 ^ 32 - 1) % 2 ^ 32 })

one_less-IsRing :
    (b : ℕ) (m : ℕ → Buf) (head : ℕ) (xs : List ℕ)
    → IsRing m head xs
    → IsRing (one_less b m) head xs
one_less-IsRing b m head xs ring = record {
  linked =
      Linked_of_same m (one_less b m) (λ c. ground arith) (λ c. ground arith) head xs head
        ring.linked;
  distinct = ring.distinct;
  apart = ring.apart;
}

MayUse-left : (p : ℕ) (m : Machine) → MayUse p m → MayUse p (left m)
MayUse-left p m may = record {
  own = MayLock-left p m may.own;
  table = may.table;
  apart = may.apart;
  room = may.room;
}

-- The running process holds the sleep lock.
pub record IsHeld (lk : ℕ) (k : Kernel) (r : Proc) : Type 0 where
  pub runs : IsRunner k r
  pub locked : (k.sleeplocks lk).locked ≢ 0
  pub mine : (k.sleeplocks lk).pid ≡ r.pid

-- The kernel after a release of the lock of a buffer.
abbrev pub let_go : (lk : ℕ) → Kernel → Kernel
let_go lk k = record k {
  machine = left k.machine;
  procs = wakeup1 lk k.procs;
  sleeplocks = update k.sleeplocks lk free_lock;
}

brelse-released :
    (bcache b : ℕ) (w : Bcache) {r : Proc}
    → MayUse (spin_of (lock_of b)) w.kernel.machine
    → MayLock bcache_lock w.kernel.machine
    → IsHeld (lock_of b) w.kernel r
    → brelse bcache b w
      ≡ ok (record {
        kernel = let_go (lock_of b) w.kernel;
        bufs = released (head_of bcache) b w.bufs;
      })
unfolding brelse lock_cache unlock_cache
brelse-released bcache b w {r} may cache held =
    let k = w.kernel in
    let lk = lock_of b in
    let k₁ : Kernel = record k { machine = left k.machine } in
    let m₂ = left (left k.machine) in
    let mine : (not ((k.sleeplocks lk).locked == 0) && ((k.sleeplocks lk).pid == r.pid)) ≡ true =
      ground (arith, held.locked, held.mine) in
    let may₂ : MayLock bcache_lock m₂ =
      MayLock-left bcache_lock (left k.machine) (MayLock-left bcache_lock k.machine cache) in
    let k₂ : Kernel = record (let_go lk k) { machine = m₂ } in
    rw (holdingsleep_lem lk k may {r = r} held.runs) (
      rw mine (
        rw (releasesleep_lem lk k₁ (MayUse-left (spin_of lk) k.machine may)) (
          rw (lock-entered bcache_lock k₂ may₂) (
            rw
              (unlock-entered bcache_lock m₂ (record k₂ { machine = entered bcache_lock m₂ }) may₂
                refl)
              (ap
                (λ m. ok (record {
                  kernel = record (let_go lk k) { machine = m };
                  bufs = released (head_of bcache) b w.bufs;
                }))
                (ap left (left-left k.machine) ∙ left-left k.machine))))))

SameContents-refl : (a : Buf) → SameContents a a
SameContents-refl a = record { flags = refl; dev = refl; blockno = refl; refcnt = refl }

-- The ring and the contents after a release: the buffer goes to the front with its last
-- reference.
released_lem :
    (head b : ℕ) (m : ℕ → Buf) (ys zs : List ℕ)
    → IsRing m head (ys ++ b ∷ zs)
    → 0 < (m b).refcnt
    → (m b).refcnt < 2 ^ 32
    → IsRing (released head b m) head (if (m b).refcnt == 1 then b ∷ ys ++ zs else ys ++ b ∷ zs)
      × ((c : ℕ) → SameContents (one_less b m c) (released head b m c))
unfolding released
released_lem head b m ys zs ring pos small =
    let m₁ = one_less b m in
    let less : (m₁ b).refcnt ≡ ((m b).refcnt + 2 ^ 32 - 1) % 2 ^ 32 =
      ap (λ x. x.refcnt)
        (update_self m b (record (m b) { refcnt = ((m b).refcnt + 2 ^ 32 - 1) % 2 ^ 32 })) in
    let ring₁ = one_less-IsRing b m head (ys ++ b ∷ zs) ring in
    elim (Bool-cases ((m b).refcnt == 1)) [
      | inl last ↦
          let gone : ((m₁ b).refcnt == 0) ≡ true = ground (arith, less, last) in
          rw (last, gone)
            (
              front-IsRing m₁ head b ys zs ring₁,
              λ c.
                  SameContents-trans (unlink-SameContents b m₁ c)
                    (insert_front-SameContents head b (unlink b m₁) c),
            )
      | inr more ↦
          let left' : ((m₁ b).refcnt == 0) ≡ false = ground (arith, less, more) in
          rw (more, left') (ring₁, λ c. SameContents-refl (m₁ c))
    ]

at_self :
    (b : ℕ) (m : ℕ → Buf)
    → 0 < (m b).refcnt
    → (m b).refcnt < 2 ^ 32
    → SameContents (record (m b) { refcnt = (m b).refcnt - 1 }) (one_less b m b)
at_self b m pos small =
    let less : ((m b).refcnt + 2 ^ 32 - 1) % 2 ^ 32 ≡ (m b).refcnt - 1 = omega arith in
    let there = update_self m b (record (m b) { refcnt = ((m b).refcnt + 2 ^ 32 - 1) % 2 ^ 32 }) in
    record {
      flags = ap (λ x. x.flags) there;
      dev = ap (λ x. x.dev) there;
      blockno = ap (λ x. x.blockno) there;
      refcnt = ap (λ x. x.refcnt) there ∙ less;
    }

at_other : (b : ℕ) (m : ℕ → Buf) (c : ℕ) → b ≢ c → SameContents (m c) (one_less b m c)
at_other b m c ne =
    let there =
      update_ne m b c (record (m b) { refcnt = ((m b).refcnt + 2 ^ 32 - 1) % 2 ^ 32 }) ne in
    record {
      flags = ap (λ x. x.flags) there;
      dev = ap (λ x. x.dev) there;
      blockno = ap (λ x. x.blockno) there;
      refcnt = ap (λ x. x.refcnt) there;
    }

-- brelse of a buffer that the running process has locked frees its lock and drops one reference.
-- With the last reference the buffer goes to the front of the ring, the others in their order;
-- else the ring stays as it is. No buffer changes its block or its flags, and no other its count.
pub brelse_lem :
    (bcache b : ℕ) (w : Bcache) {r : Proc} (ys zs : List ℕ)
    → MayUse (spin_of (lock_of b)) w.kernel.machine
    → MayLock bcache_lock w.kernel.machine
    → IsHeld (lock_of b) w.kernel r
    → IsRing w.bufs (head_of bcache) (ys ++ b ∷ zs)
    → 0 < (w.bufs b).refcnt
    → (w.bufs b).refcnt < 2 ^ 32
    → (m : ℕ → Buf) × (brelse bcache b w
        ≡ ok (record { kernel = let_go (lock_of b) w.kernel; bufs = m }))
      × IsRing m (head_of bcache) (if (w.bufs b).refcnt == 1 then b ∷ ys ++ zs else ys ++ b ∷ zs)
      × SameContents (record (w.bufs b) { refcnt = (w.bufs b).refcnt - 1 }) (m b)
      × ((c : ℕ) → b ≢ c → SameContents (w.bufs c) (m c))
brelse_lem bcache b w ys zs may cache held ring pos small =
    let (ring', same) = released_lem (head_of bcache) b w.bufs ys zs ring pos small in
    (
      released (head_of bcache) b w.bufs,
      brelse-released bcache b w may cache held,
      ring',
      SameContents-trans (at_self b w.bufs pos small) (same b),
      λ c ne. SameContents-trans (at_other b w.bufs c ne) (same c),
    )
