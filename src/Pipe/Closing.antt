-- ===== src/Pipe/Closing.antt =====
-- pipeclose, and a write to a pipe that nobody reads.
use soproyecto.Common.{
  not, ◌≢◌, fun_ext, ℕ, suc, ◌≡◌, refl, Bool, true, false, none, List, ◌∷◌, ok, ◌==◌, ◌&&◌, ap, ◌∙◌,
  ◌>>=◌, Bool-cases, inl, inr, if◌then◌else◌, arith,
}
use soproyecto.Machine.{Machine, update, update_self}
use soproyecto.Proc.Defs.{Pipe, Kernel, kfree, call, unlock}
use soproyecto.Proc.Enter.{entered, left, lock-entered, unlock-entered, MayLock-left, left-left}
use soproyecto.Proc.Table.{wakeup1}
use soproyecto.Proc.Sched.Switch.{wakeup_lem}
use soproyecto.Pipe.{
  nread_of, nwrite_of, with_pipe, is_full, close_end, pipeclose, pipewrite, write_bytes, await_room,
  gives_up,
}
use soproyecto.Proc.Sched.Section.{MayUse, MayLock-inside, left-entered}

-- Both ends are closed.
abbrev pub is_done : Pipe → Bool
is_done q = (q.readopen == 0) && (q.writeopen == 0)

-- The pipe with its one end closed, and whether its other end was closed before.
abbrev pub half_closed : Bool → Pipe → Pipe
half_closed writable q = record q {
  readopen = if writable then q.readopen else 0;
  writeopen = if writable then 0 else q.writeopen;
}

abbrev pub was_alone : Bool → Pipe → Bool
was_alone writable q = if writable then q.readopen == 0 else q.writeopen == 0

-- Those who are woken: the readers when the writer closes, and the other way round.
abbrev pub other_end : Bool → ℕ → ℕ
other_end writable p = if writable then nread_of p else nwrite_of p

close_end-half_closed : (writable : Bool) (q : Pipe) → close_end writable q ≡ half_closed writable q
close_end-half_closed true q = refl
close_end-half_closed false q = refl

is_done-close_end :
    (writable : Bool) (q : Pipe) → is_done (close_end writable q) ≡ was_alone writable q
is_done-close_end true q = ground arith
is_done-close_end false q = ground arith

module _ (p : ℕ) (k : Kernel) (may : MayUse p k.machine) where
  shut : Bool → Kernel
  shut writable = record k {
    machine = entered p k.machine;
    procs = wakeup1 (if writable then nread_of p else nwrite_of p) k.procs;
    pipes = update k.pipes p (close_end writable (k.pipes p));
  }

  after_shut :
      (writable d : Bool)
      → is_done (close_end writable (k.pipes p)) ≡ d
      → pipeclose p writable k ≡ (
          if d
          then (unlock p (shut writable) >>= λ k. ok (call (kfree p) k))
          else unlock p (shut writable))
  unfolding pipeclose shut
  after_shut writable d e =
      let q = close_end writable (k.pipes p) in
      let test : is_done (update k.pipes p q p) ≡ d = ap is_done (update_self k.pipes p q) ∙ e in
      rw (lock-entered p k may.own) (
        rw
          (wakeup_lem (if writable then nread_of p else nwrite_of p)
            (with_pipe p q (record k { machine = entered p k.machine }))
            (MayLock-inside p k.machine may))
          (rw (left-entered p k.machine) (rw test refl)))

  closes :
      (writable : Bool)
      → pipeclose p writable k
        ≡ ok (record k {
          machine = left k.machine;
          procs = wakeup1 (other_end writable p) k.procs;
          pipes = update k.pipes p (close_end writable (k.pipes p));
          calls = if is_done (close_end writable (k.pipes p)) then kfree p ∷ k.calls else k.calls;
        })
  unfolding shut
  closes writable =
      let release_lock = unlock-entered p k.machine (shut writable) may.own refl in
      elim (Bool-cases (is_done (close_end writable (k.pipes p)))) [
        | inl e ↦ after_shut writable true e ∙ rw (release_lock, e) refl
        | inr e ↦ after_shut writable false e ∙ rw (release_lock, e) refl
      ]

  -- pipeclose marks the one end as closed and leaves the other as it was, wakes those who wait at
  -- the other end, and frees the pipe just when the other end was closed before. The locks of the
  -- pipe and of the process table must be free.
  pub pipeclose_lem :
      (writable : Bool)
      → pipeclose p writable k
        ≡ ok (record k {
          machine = left k.machine;
          procs = wakeup1 (other_end writable p) k.procs;
          pipes = update k.pipes p (half_closed writable (k.pipes p));
          calls = if was_alone writable (k.pipes p) then kfree p ∷ k.calls else k.calls;
        })
  pipeclose_lem writable = closes writable ∙ (λ i. ok (record k {
    machine = left k.machine;
    procs = wakeup1 (other_end writable p) k.procs;
    pipes = update k.pipes p (close_end-half_closed writable (k.pipes p) i);
    calls = if is_done-close_end writable (k.pipes p) i then kfree p ∷ k.calls else k.calls;
  }))

  -- A write to a full pipe that is not open for reading fails, and changes nothing.
  pub pipewrite-broken :
      (swtch : Kernel → Kernel) (fuel b : ℕ) (bs : List ℕ)
      → is_full (k.pipes p) ≡ true
      → (k.pipes p).readopen ≡ 0
      → pipewrite swtch (suc fuel) p (b ∷ bs) k ≡ ok (none, record k { machine = left k.machine })
  unfolding pipewrite write_bytes await_room gives_up
  pipewrite-broken swtch fuel b bs full unread =
      let closed : ((k.pipes p).readopen == 0) ≡ true = ground arith in
      rw (lock-entered p k may.own) (
        rw full (
          rw closed (
            rw
              (unlock-entered p k.machine (record k { machine = entered p k.machine }) may.own refl)
              refl)))

MayUse-left : (p : ℕ) (m : Machine) → MayUse p m → MayUse p (left m)
MayUse-left p m may = record {
  own = MayLock-left p m may.own;
  table = may.table;
  apart = may.apart;
  room = may.room;
}

-- Closing both ends of an open pipe, in either order, wakes the waiters of both, leaves both ends
-- closed, and frees the pipe once, at the second close. The locks of the pipe and of the process
-- table must be free.
pub pipeclose-pipeclose :
    (p : ℕ) (k : Kernel) (first : Bool)
    → MayUse p k.machine
    → (k.pipes p).readopen ≢ 0
    → (k.pipes p).writeopen ≢ 0
    → (pipeclose p first k
        ≡ ok (record k {
          machine = left k.machine;
          procs = wakeup1 (other_end first p) k.procs;
          pipes = update k.pipes p (half_closed first (k.pipes p));
        }))
      × ((pipeclose p first k >>= pipeclose p (not first))
          ≡ ok (record k {
            machine = left k.machine;
            procs = wakeup1 (other_end (not first) p) (wakeup1 (other_end first p) k.procs);
            pipes = update k.pipes p (record (k.pipes p) { readopen = 0; writeopen = 0 });
            calls = kfree p ∷ k.calls;
          }))
pipeclose-pipeclose p k first may readers writers =
    let q = k.pipes p in
    let k₁ = record k {
      machine = left k.machine;
      procs = wakeup1 (other_end first p) k.procs;
      pipes = update k.pipes p (half_closed first q);
    } in
    let stays : was_alone first q ≡ false = open_other first q readers writers in
    let one : pipeclose p first k ≡ ok k₁ = pipeclose_lem p k may first ∙ rw stays refl in
    let same : update k.pipes p (half_closed first q) p ≡ half_closed first q =
      update_self k.pipes p (half_closed first q) in
    let last : was_alone (not first) (k₁.pipes p) ≡ true =
      ap (was_alone (not first)) same ∙ alone_now first q in
    let shut_both : half_closed (not first) (k₁.pipes p)
        ≡ record q { readopen = 0; writeopen = 0 } =
      ap (half_closed (not first)) same ∙ closed_now first q in
    (
      one,
      rw one (
          pipeclose_lem p k₁ (MayUse-left p k.machine may) (not first)
          ∙ (λ i. ok (record k {
            machine = left-left k.machine i;
            procs = wakeup1 (other_end (not first) p) (wakeup1 (other_end first p) k.procs);
            pipes = update k₁.pipes p (shut_both i);
            calls = if last i then kfree p ∷ k.calls else k.calls;
          }))
          ∙ (λ i. ok (record k {
            machine = left k.machine;
            procs = wakeup1 (other_end (not first) p) (wakeup1 (other_end first p) k.procs);
            pipes =
                update_update k.pipes p (half_closed first q)
                  (record q { readopen = 0; writeopen = 0 }) i;
            calls = kfree p ∷ k.calls;
          }))),
    )
  where
    open_other : (b : Bool) (q : Pipe) → q.readopen ≢ 0 → q.writeopen ≢ 0 → was_alone b q ≡ false
    open_other true q r w = ground (arith, r)
    open_other false q r w = ground (arith, w)

    alone_now : (b : Bool) (q : Pipe) → was_alone (not b) (half_closed b q) ≡ true
    alone_now true q = refl
    alone_now false q = refl

    closed_now :
        (b : Bool) (q : Pipe)
        → half_closed (not b) (half_closed b q) ≡ record q { readopen = 0; writeopen = 0 }
    closed_now true q = refl
    closed_now false q = refl

    update_update : (f : ℕ → Pipe) (a : ℕ) (u v : Pipe) → update (update f a u) a v ≡ update f a v
    update_update f a u v =
        fun_ext (λ c. elim (Bool-cases (a == c)) [ inl e ↦ rw e refl | inr e ↦ rw e refl ])
