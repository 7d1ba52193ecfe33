-- ===== src/Sleeplock/Ownership.antt =====
-- Who holds a sleep lock.
use soproyecto.Common.{
  ℕ, suc, ◌≡◌, refl, ap, fun_ext, ◌∙◌, true, not, ◌&&◌, ok, ◌==◌, Bool-cases, inl, inr, arith,
}
use soproyecto.Machine.{update}
use soproyecto.Proc.Defs.{Proc, Kernel}
use soproyecto.Proc.Enter.{entered, left, lock-entered, unlock-entered, deref_lem}
use soproyecto.Proc.Table.{wakeup1}
use soproyecto.Proc.Sched.Switch.{IsRunner, wakeup_lem}
use soproyecto.Proc.Sched.Section.{MayUse, MayLock-inside, left-entered, myproc-entered}
use soproyecto.Sleeplock.{
  spin_of, with_sleeplock, free_lock, await_lock, my_pid, acquiresleep, releasesleep, is_mine,
  holdingsleep,
}

module _ (lk : ℕ) (k : Kernel) (may : MayUse (spin_of lk) k.machine) where
  inside : Kernel
  inside = record k { machine = entered (spin_of lk) k.machine }

  my_pid-inside :
      (s : Kernel) {r : Proc}
      → IsRunner (record s { machine = entered (spin_of lk) k.machine }) r
      → my_pid (record s { machine = entered (spin_of lk) k.machine })
        ≡ ok (r.pid, record s { machine = entered (spin_of lk) k.machine })
  unfolding my_pid
  my_pid-inside s at = rw (myproc-entered (spin_of lk) k.machine s may) (
      rw (deref_lem k.machine.cpu.proc (record s { machine = entered (spin_of lk) k.machine }) at)
        refl)

  written_twice :
      (pid : ℕ)
      → update (update k.sleeplocks lk (record (k.sleeplocks lk) { locked = 1 })) lk (record {
        locked = (update k.sleeplocks lk (record (k.sleeplocks lk) { locked = 1 }) lk).locked;
        pid = pid;
      })
        ≡ update k.sleeplocks lk (record { locked = 1; pid = pid })
  written_twice pid = fun_ext (λ a. ground arith)

  -- A sleep lock that is free is taken in the name of the running process, without a wait, and
  -- nothing else changes.
  pub acquiresleep-free :
      (swtch : Kernel → Kernel) (fuel : ℕ) {r : Proc}
      → IsRunner k r
      → (k.sleeplocks lk).locked ≡ 0
      → acquiresleep swtch (suc fuel) lk k
        ≡ ok (record k {
          machine = left k.machine;
          sleeplocks = update k.sleeplocks lk (record { locked = 1; pid = r.pid });
        })
  unfolding acquiresleep await_lock
  acquiresleep-free swtch fuel {r} at free =
      let s = with_sleeplock lk (record (k.sleeplocks lk) { locked = 1 }) k in
      let one : ((k.sleeplocks lk).locked == 0) ≡ true = ground arith in
      rw (lock-entered (spin_of lk) k may.own) (
        rw one (
          rw (my_pid-inside s at) (
            unlock-entered (spin_of lk) k.machine
              (with_sleeplock lk (record (s.sleeplocks lk) { pid = r.pid })
                (record s { machine = entered (spin_of lk) k.machine }))
              may.own refl
            ∙ ap (λ f. ok (record k { machine = left k.machine; sleeplocks = f }))
                (written_twice r.pid))))

  -- releasesleep frees the lock, whoever holds it, and wakes those who wait for it.
  pub releasesleep_lem :
      releasesleep lk k
      ≡ ok (record k {
        machine = left k.machine;
        procs = wakeup1 lk k.procs;
        sleeplocks = update k.sleeplocks lk free_lock;
      })
  unfolding releasesleep inside
  releasesleep_lem = rw (lock-entered (spin_of lk) k may.own) (
      rw
        (wakeup_lem lk (with_sleeplock lk free_lock inside)
          (MayLock-inside (spin_of lk) k.machine may))
        (unlock-entered (spin_of lk) k.machine
          (record k {
            machine = left (entered (spin_of lk) k.machine);
            procs = wakeup1 lk k.procs;
            sleeplocks = update k.sleeplocks lk free_lock;
          })
          may.own (left-entered (spin_of lk) k.machine)))

  -- holdingsleep tells whether the lock is taken in the name of the running process.
  pub holdingsleep_lem :
      {r : Proc}
      → IsRunner k r
      → holdingsleep lk k
        ≡ ok (
          not ((k.sleeplocks lk).locked == 0) && ((k.sleeplocks lk).pid == r.pid),
          record k { machine = left k.machine },
        )
  unfolding holdingsleep is_mine inside
  holdingsleep_lem {r} at =
      let release_lock = unlock-entered (spin_of lk) k.machine inside may.own refl in
      elim (Bool-cases ((k.sleeplocks lk).locked == 0)) [
        | inl e ↦ rw (lock-entered (spin_of lk) k may.own) (rw (e, release_lock) refl)
        | inr e ↦
            rw (lock-entered (spin_of lk) k may.own)
              (rw e (rw (my_pid-inside k at) (rw release_lock refl)))
      ]
