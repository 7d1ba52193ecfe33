-- ===== src/Proc/Sched/Sleep.antt =====
-- sleep, on a lock of its own and on the lock of the table.
use soproyecto.Common.{
  inl, inr, ◌⊎◌, subst, sym, [], ◌∷◌, take, zero, suc, ℕ, ◌≡◌, ◌≢◌, refl, fun_ext, ◌∙◌, false, some,
  ok, ◌==◌, arith,
}
use soproyecto.Machine.{Cpu, Machine, unlocked, held_by, update, acquire, release}
use soproyecto.Machine.Locks.{pushed, popped, acquire-unlocked, release-held}
use soproyecto.Proc.Defs.{
  sleeping, assign, Proc, Kernel, ptable_lock, proc_at, write_proc, lock, unlock,
}
use soproyecto.Proc.Enter.{assign_lem}
use soproyecto.Proc.Sched.{sleep, doze, with_chan, sleep_steps, run_steps}
use soproyecto.Proc.Sched.Round.{KeepsMachine}
use soproyecto.Proc.Sched.Switch.{InSection, myproc-nested, sched_lem, IsRunner, proc_at-write}

-- A thread that holds `lk` alone, while the lock of the table is free.
pub record HoldsOnly (lk : ℕ) (m : Machine) : Type 0 where
  pub not_null : lk ≢ 0
  pub other : lk ≢ ptable_lock
  pub held : m.locks lk ≡ held_by m.cpu.id
  pub table_free : m.locks ptable_lock ≡ unlocked
  pub once : m.cpu.ncli ≡ 1
  pub off : m.cpu.interrupts ≡ false

-- The machine at the switch: `lk` is released, and the lock of the table is held.
abbrev pub handed_over : ℕ → Machine → Machine
handed_over lk m = record m {
  locks = update (update m.locks ptable_lock (held_by m.cpu.id)) lk unlocked;
}

-- The state in which sleep switches away.
abbrev pub dozing : ℕ → Machine → Kernel → Kernel
dozing chan m k = record k {
  machine = m;
  procs = write_proc k.procs k.machine.cpu.proc (λ r. record r { chan = chan; state = sleeping });
}

module _ (lk : ℕ) (m : Machine) (h : HoldsOnly lk m) where
  mid : Machine
  mid = record { cpu = pushed m.cpu; locks = update m.locks ptable_lock (held_by m.cpu.id) }

  go_in : acquire ptable_lock m ≡ ok mid
  unfolding mid
  go_in = acquire-unlocked ptable_lock m h.table_free (omega (arith, h.once))

  hand_over : release lk mid ≡ ok (handed_over lk m)
  unfolding mid
  hand_over =
      release-held lk mid (ground (arith, h.held, h.other))
        (record { off = refl; deep = omega arith; small = omega (arith, h.once) })
        (omega (arith, h.once))
      ∙ (λ i. ok (record { cpu = same i; locks = (handed_over lk m).locks }))
    where
      same : popped (pushed m.cpu) ≡ m.cpu
      same = ground (arith, h.once, h.off)

  InSection-handed_over : InSection (handed_over lk m)
  InSection-handed_over = record { held = ground (arith, h.other); once = h.once; off = h.off }

  free_cpu : Cpu
  free_cpu = record m.cpu { interrupts = m.cpu.intena; ncli = 0 }

  open_table :
      release ptable_lock (handed_over lk m)
      ≡ ok (record { cpu = free_cpu; locks = update m.locks lk unlocked })
  unfolding free_cpu
  open_table =
      release-held ptable_lock (handed_over lk m) InSection-handed_over.held
        (record { off = h.off; deep = omega (arith, h.once); small = omega (arith, h.once) })
        (omega (arith, h.once))
      ∙ (λ i. ok (record { cpu = same i; locks = locks i }))
    where
      same : popped m.cpu ≡ record m.cpu { interrupts = m.cpu.intena; ncli = 0 }
      same = ground (arith, h.once)

      locks : update (handed_over lk m).locks ptable_lock unlocked ≡ update m.locks lk unlocked
      locks = fun_ext (λ b. ground (arith, h.table_free, h.other))

  take_back : acquire lk (record { cpu = free_cpu; locks = update m.locks lk unlocked }) ≡ ok m
  unfolding free_cpu
  take_back =
      acquire-unlocked lk _ (ground arith) (omega arith)
      ∙ (λ i. ok (record { cpu = same i; locks = locks i }))
    where
      same : pushed (record m.cpu { interrupts = m.cpu.intena; ncli = 0 }) ≡ m.cpu
      same = ground (arith, h.once, h.off)

      locks : update (update m.locks lk unlocked) lk (held_by m.cpu.id) ≡ m.locks
      locks = fun_ext (λ b. ground (arith, h.held))

-- Returning from the switch at which `lk` is released and the process sleeps on `chan`.
sleep-returned :
    (swtch : Kernel → Kernel) (chan lk : ℕ) (k : Kernel) {r r' : Proc}
    → KeepsMachine swtch
    → HoldsOnly lk k.machine
    → IsRunner k r
    → proc_at (swtch (dozing chan (handed_over lk k.machine) k)).procs k.machine.cpu.proc ≡ some r'
    → sleep swtch chan lk k
      ≡ ok (record (swtch (dozing chan (handed_over lk k.machine) k)) {
        machine = k.machine;
        procs =
            write_proc
              (swtch (dozing chan (handed_over lk k.machine) k)).procs
              k.machine.cpu.proc
              (λ r. record r { chan = 0 });
      })
unfolding sleep lock unlock
sleep-returned swtch chan lk k {r} keeps h at back =
    let p = k.machine.cpu.proc in
    let m = k.machine in
    let k₁ = dozing chan (handed_over lk m) k in
    let there : (p == 0) ≡ false = ground arith in
    let given : (lk == 0) ≡ false = ground (arith, h.not_null) in
    let own : (lk == ptable_lock) ≡ false = ground (arith, h.other) in
    rw (myproc-nested k h.once h.off) (
      rw (there, given, own)
        (rw (go_in lk m h, hand_over lk m h)
          (rw (assign_lem p (doze chan) (record k { machine = handed_over lk m }) at) (
            rw
              (sched_lem swtch k₁ keeps (InSection-handed_over lk m h)
                (proc_at-write k.procs p (doze chan) at) refl)
              (rw
                (assign_lem p (with_chan 0) (record (swtch k₁) { machine = handed_over lk m }) back)
                (rw (open_table lk m h, take_back lk m h) refl))))))

-- The process holds `lk` or the lock of the table.
abbrev pub IsGuarded : (lk : ℕ) → Machine → Type 0
IsGuarded lk m = (m.locks lk ≡ held_by m.cpu.id) ⊎ (m.locks ptable_lock ≡ held_by m.cpu.id)

module _ (chan lk : ℕ) (k : Kernel) {r : Proc} (h : HoldsOnly lk k.machine)
    (at : IsRunner k r) where
  -- The statements up to sched, for a lock that is not that of the table.
  three_steps :
      sleep_steps chan lk k.machine.cpu.proc
      ≡ lock ptable_lock ∷ unlock lk ∷ assign k.machine.cpu.proc (doze chan) ∷ []
  three_steps = let own : (lk == ptable_lock) ≡ false = ground (arith, h.other) in rw own refl

  took_table : lock ptable_lock k ≡ ok (record k { machine = mid lk k.machine h })
  unfolding lock
  took_table = rw (go_in lk k.machine h) refl

  released_own :
      unlock lk (record k { machine = mid lk k.machine h })
      ≡ ok (record k { machine = handed_over lk k.machine })
  unfolding unlock
  released_own = rw (hand_over lk k.machine h) refl

  dozed :
      assign k.machine.cpu.proc (doze chan) (record k { machine = handed_over lk k.machine })
      ≡ ok (dozing chan (handed_over lk k.machine) k)
  dozed =
      assign_lem k.machine.cpu.proc (doze chan) (record k { machine = handed_over lk k.machine }) at

  table_held : IsGuarded lk (handed_over lk k.machine)
  table_held = inr (InSection-handed_over lk k.machine h).held

  after_steps :
      (n : ℕ)
      → (k' : Kernel) × (run_steps
            (take n (lock ptable_lock ∷ unlock lk ∷ assign k.machine.cpu.proc (doze chan) ∷ []))
            k
          ≡ ok k')
        × IsGuarded lk k'.machine
  unfolding mid
  after_steps zero = (k, refl, inl h.held)
  after_steps (suc zero) =
      (record k { machine = mid lk k.machine h }, rw took_table refl, inr (ground arith))
  after_steps (suc (suc zero)) = (
    record k { machine = handed_over lk k.machine },
    rw took_table (rw released_own refl),
    table_held,
  )
  after_steps (suc (suc (suc zero))) = (
    dozing chan (handed_over lk k.machine) k,
    rw took_table (rw released_own (rw dozed refl)),
    table_held,
  )
  after_steps (suc (suc (suc (suc n)))) = (
    dozing chan (handed_over lk k.machine) k,
    rw took_table (rw released_own (rw dozed refl)),
    table_held,
  )

-- sleep on a lock of its own, by a process that holds that lock only, with a switch that keeps the
-- machine and after which the process is still in the table. After every statement up to
-- the switch the process holds the lock or that of the table, so no wakeup comes between. At the
-- switch it is SLEEPING on `chan`, the table's lock is held and its own is released. Once it is
-- back, its own lock is held again, the table's lock is free and the channel is cleared.
pub sleep_lem :
    (swtch : Kernel → Kernel) (chan lk : ℕ) (k : Kernel) {r r' : Proc}
    → KeepsMachine swtch
    → HoldsOnly lk k.machine
    → IsRunner k r
    → proc_at (swtch (dozing chan (handed_over lk k.machine) k)).procs k.machine.cpu.proc ≡ some r'
    → ((n : ℕ)
        → (k' : Kernel) × (run_steps (take n (sleep_steps chan lk k.machine.cpu.proc)) k ≡ ok k')
          × IsGuarded lk k'.machine)
      × (sleep swtch chan lk k
          ≡ ok (record (swtch (dozing chan (handed_over lk k.machine) k)) {
            machine = k.machine;
            procs =
                write_proc
                  (swtch (dozing chan (handed_over lk k.machine) k)).procs
                  k.machine.cpu.proc
                  (λ r. record r { chan = 0 });
          }))
sleep_lem swtch chan lk k {r} keeps h at back = (
  λ n.
      subst (λ l. (k' : Kernel) × (run_steps (take n l) k ≡ ok k') × IsGuarded lk k'.machine)
        (sym (three_steps chan lk k h at)) (after_steps chan lk k h at n),
  sleep-returned swtch chan lk k keeps h at back,
)

-- sleep on the lock of the table, as wait does: the lock is held at the switch and after it.
pub sleep_table :
    (swtch : Kernel → Kernel) (chan : ℕ) (k : Kernel) {r r' : Proc}
    → KeepsMachine swtch
    → InSection k.machine
    → IsRunner k r
    → proc_at (swtch (dozing chan k.machine k)).procs k.machine.cpu.proc ≡ some r'
    → sleep swtch chan ptable_lock k
      ≡ ok (record (swtch (dozing chan k.machine k)) {
        machine = k.machine;
        procs = write_proc (swtch (dozing chan k.machine k)).procs k.machine.cpu.proc (with_chan 0);
      })
unfolding sleep
sleep_table swtch chan k keeps s at back =
    let p = k.machine.cpu.proc in
    let k₁ = dozing chan k.machine k in
    let there : (p == 0) ≡ false = ground arith in
    rw (myproc-nested k s.once s.off) (
      rw there (
        rw (assign_lem p (doze chan) k at) (
          rw (sched_lem swtch k₁ keeps s (proc_at-write k.procs p (doze chan) at) refl) (
            rw (assign_lem p (with_chan 0) (record (swtch k₁) { machine = k.machine }) back)
              refl))))
