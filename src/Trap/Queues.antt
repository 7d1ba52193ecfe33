-- ===== src/Trap/Queues.antt =====
-- The accounting of the two queues: ticks, the quantum and demotion.
use soproyecto.Common.{
  ℕ, zero, suc, ◌+◌, ◌-◌, ◌<◌, ◌≤◌, ◌%◌, ◌^◌, ◌≡◌, ap, ◌∙◌, true, false, Bool-cases, inl, inr, ok,
  ◌==◌, ltb, arith, if◌then◌else◌,
}
use soproyecto.Machine.Locks.{MayLock}
use soproyecto.Proc.Defs.{running, is_state, Proc, Kernel, Trapframe, ptable_lock, write_proc}
use soproyecto.Proc.Enter.{left, left-left, assign_lem, deref_lem, myproc_lem, MayLock-left}
use soproyecto.Proc.Sched.Round.{KeepsMachine}
use soproyecto.Proc.Sched.Switch.{IsRunner, yield_lem, yielding, proc_at-write}
use soproyecto.Trap.{charge, mlfq_tick, t_irq0}

-- What the scheduler and the accounting rely on: one of the two queues, and in the high queue an
-- open quantum.
pub record IsQueued (p : Proc) : Type 0 where
  pub queue : p.priority ≤ 1
  pub open_quantum : p.priority ≡ 0 → p.ticks_used < 5

-- A tick keeps this.
pub charge-IsQueued : (p : Proc) → IsQueued p → IsQueued (charge p)
unfolding charge
charge-IsQueued p q = ground (arith, q.queue, q.open_quantum)

-- `n` ticks.
abbrev pub charges : ℕ → Proc → Proc
charges zero p = p
charges (suc n) p = charge (charges n p)

-- The place in the queues after `n` ticks from the start of a process.
abbrev pub Place : ℕ → Proc → Type 0
Place n p =
    if ltb n 5
    then (p.priority ≡ 0) × (p.ticks_used ≡ n)
    else (p.priority ≡ 1) × (p.ticks_used ≡ (n - 5) % 2 ^ 32)

charge_high :
    (p : Proc) (n : ℕ)
    → p.priority ≡ 0
    → p.ticks_used ≡ n
    → n < 4
    → ((charge p).priority ≡ 0) × ((charge p).ticks_used ≡ suc n)
unfolding charge
charge_high p n high ticks h = ground arith

charge_fifth :
    (p : Proc)
    → p.priority ≡ 0
    → p.ticks_used ≡ 4
    → ((charge p).priority ≡ 1) × ((charge p).ticks_used ≡ 0)
unfolding charge
charge_fifth p high ticks = ground arith

charge_low :
    (p : Proc)
    → p.priority ≡ 1
    → ((charge p).priority ≡ 1) × ((charge p).ticks_used ≡ (p.ticks_used + 1) % 2 ^ 32)
unfolding charge
charge_low p low = ground arith

step_Place : (n : ℕ) (p : Proc) → Place n p → Place (suc n) (charge p)
step_Place n p at = elim (Bool-cases (ltb n 4)) [
  | inl early ↦
      let here : ltb n 5 ≡ true = ground arith in
      let next : ltb (suc n) 5 ≡ true = ground arith in
      let (high, ticks) = rw here at at in rw next (charge_high p n high ticks (ground arith))
  | inr late ↦
      let next : ltb (suc n) 5 ≡ false = ground arith in
      elim (Bool-cases (ltb n 5)) [
        | inl fifth ↦
            let (high, ticks) = rw fifth at at in
            let four : n ≡ 4 = ground arith in
            let (low, fresh) = charge_fifth p high (ticks ∙ four) in
            rw next (low, fresh ∙ omega arith)
        | inr below ↦
            let (low, ticks) = rw below at at in
            let (low', ticks') = charge_low p low in
            let past : 5 ≤ n = ground arith in rw next (low', ticks' ∙ omega arith)
      ]
]

-- A process that starts in the high queue stays there for four ticks, goes down at the fifth, and
-- then stays in the low queue for good, while its ticks are counted modulo 2^32.
pub charges_lem : (n : ℕ) (p : Proc) → p.priority ≡ 0 → p.ticks_used ≡ 0 → Place n (charges n p)
charges_lem zero p high none' = (high, none')
charges_lem (suc n) p high none' = step_Place n (charges n p) (charges_lem n p high none')

-- On a timer tick the running process is charged, then gives up the CPU: at the switch it is
-- RUNNABLE, in the queue that the charge has put it in.
pub mlfq_tick_lem :
    (swtch : Kernel → Kernel) (f : Trapframe) (k : Kernel) {r : Proc}
    → KeepsMachine swtch
    → MayLock ptable_lock k.machine
    → k.machine.cpu.ncli ≡ 0
    → IsRunner k r
    → r.state ≡ running
    → f.trapno ≡ t_irq0
    → mlfq_tick swtch f k
      ≡ ok
          (record (swtch (
            yielding (record k {
              machine = left k.machine;
              procs = write_proc k.procs k.machine.cpu.proc charge;
            }))) { machine = left k.machine })
unfolding mlfq_tick
mlfq_tick_lem swtch f k {r} keeps may zero' at runs tick =
    let p = k.machine.cpu.proc in
    let k₁ = record k { machine = left k.machine } in
    let there : (p == 0) ≡ false = ground arith in
    let busy : is_state r.state running ≡ true = ap (λ s. is_state s running) runs in
    let timer : (f.trapno == t_irq0) ≡ true = ground arith in
    rw (myproc_lem k (record { nested = may.nested; room = omega (arith, may.room) })) (
      rw there (
        rw (deref_lem p k₁ at) (
          rw (busy, timer)
            (rw (assign_lem p charge k₁ at) (
              yield_lem swtch (record k₁ { procs = write_proc k.procs p charge }) keeps
                (MayLock-left ptable_lock k.machine may) zero' (proc_at-write k.procs p charge at)
              ∙ (λ i.
                  ok
                    (record (swtch (yielding (record k₁ { procs = write_proc k.procs p charge }))) {
                      machine = left-left k.machine i;
                    })))))))
