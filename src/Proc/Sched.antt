-- ===== src/Proc/Sched.antt =====
-- sched, yield, sleep, wakeup, kill and scheduler of proc.c.
-- A context switch hands the CPU to other code. `swtch` stands for all that happens until control
-- comes back: it is an argument, any function on the kernel's state.
pub mod Round
pub mod Policy
pub mod Switch
pub mod Section
pub mod Sleep
pub mod Killing
use soproyecto.Common.{
  ℕ, ◌+◌, Bool, true, false, not, ◌&&◌, Option, none, some, List, [], ◌∷◌, Run, ok, stop, ◌>>=◌,
  ◌>>◌, panic_sched_lock, panic_sched_locks, panic_sched_running, panic_sched_interruptible,
  panic_sleep, panic_sleep_without_lk, ◌==◌, if◌then◌else◌,
}
use soproyecto.Machine.{Cpu, sti, holding, mycpu}
use soproyecto.Proc.Defs.{
  runnable, running, sleeping, is_state, Proc, Kernel, switchuvm, switchkvm, ptable_lock, proc_ptr,
  deref, assign, with_state, call, with_cpu, with_cpu_proc, lock, unlock, myproc,
}
use soproyecto.Proc.Table.{find_index, is_ready, wakeup1, mark_killed}

-- The checks of sched, then the switch; `intena` is kept across it.
unfoldable pub sched : (Kernel → Kernel) → Kernel → Run Kernel
sched swtch k = do
  (p, k) ← myproc k
  (held, c) ← holding (k.machine.locks ptable_lock) k.machine.cpu
  let k = with_cpu c k
  if not held then stop panic_sched_lock else do
    c ← mycpu k.machine.cpu
    if not (c.ncli == 1) then stop panic_sched_locks else do
      r ← deref p k
      if is_state r.state running
          then stop panic_sched_running
          else if k.machine.cpu.interrupts
          then stop panic_sched_interruptible
          else do
            c ← mycpu k.machine.cpu
            let back = swtch k
            c' ← mycpu back.machine.cpu
            ok (with_cpu (record c' { intena = c.intena }) back)

unfoldable pub yield_cpu : (Kernel → Kernel) → Kernel → Run Kernel
yield_cpu swtch k = do
  k ← lock ptable_lock k
  (p, k) ← myproc k
  k ← assign p (with_state runnable) k
  k ← sched swtch k
  unlock ptable_lock k

-- `p->chan = chan; p->state = SLEEPING;`
abbrev pub doze : ℕ → Proc → Proc
doze chan p = record p { chan = chan; state = sleeping }

abbrev pub with_chan : ℕ → Proc → Proc
with_chan chan p = record p { chan = chan }

-- The statements of sleep between its checks and sched, for the process `p`.
abbrev pub sleep_steps : (chan lk p : ℕ) → List (Kernel → Run Kernel)
sleep_steps chan lk p =
    if lk == ptable_lock
    then assign p (doze chan) ∷ []
    else lock ptable_lock ∷ unlock lk ∷ assign p (doze chan) ∷ []

abbrev pub run_steps : List (Kernel → Run Kernel) → Kernel → Run Kernel
run_steps [] k = ok k
run_steps (s ∷ ss) k = s k >>= run_steps ss

unfoldable pub sleep : (Kernel → Kernel) → ℕ → ℕ → Kernel → Run Kernel
sleep swtch chan lk k = do
  (p, k) ← myproc k
  if p == 0 then stop panic_sleep else if lk == 0 then stop panic_sleep_without_lk else do
    k ← run_steps (sleep_steps chan lk p) k
    k ← sched swtch k
    k ← assign p (with_chan 0) k
    if lk == ptable_lock then ok k else do k ← unlock ptable_lock k; lock lk k

unfoldable pub wakeup : ℕ → Kernel → Run Kernel
wakeup chan k = do
  k ← lock ptable_lock k
  unlock ptable_lock (record k { procs = wakeup1 chan k.procs })

-- The rest of kill, after its scan. The result 0 is `true`, and -1 is `false`.
unfoldable pub kill_at : Kernel → Option ℕ → Run (Bool × Kernel)
kill_at k none = do k ← unlock ptable_lock k; ok (false, k)
kill_at k (some i) = do
  k ← assign (proc_ptr i) mark_killed k
  k ← unlock ptable_lock k
  ok (true, k)

unfoldable pub kill : ℕ → Kernel → Run (Bool × Kernel)
unfolding kill_at
kill pid k = do k ← lock ptable_lock k; kill_at k (find_index (λ p. p.pid == pid) k.procs)

-- One of the two loops of the scheduler, over the queue `q`.
unfoldable pub phase : ℕ → (Kernel → Kernel) → Kernel → Run Kernel
phase q swtch k = elim (find_index (is_ready q) k.procs) [
  | none ↦ ok k
  | some i ↦ do
    let k = call (switchuvm (proc_ptr i)) (with_cpu_proc (proc_ptr i) k)
    k ← assign (proc_ptr i) (with_state running) k
    let back = swtch k
    ok (with_cpu_proc 0 (call switchkvm back))
]

-- One turn of the scheduler's endless loop. `first` is the switch to the process of the high
-- queue, `second` that to the process of the low queue.
unfoldable pub scheduler_round : (first second : Kernel → Kernel) → Kernel → Run Kernel
scheduler_round first second k = do
  k ← lock ptable_lock (with_cpu (sti k.machine.cpu) k)
  k ← phase 0 first k
  k ← if k.machine.cpu.proc == 0 then phase 1 second k else ok k
  unlock ptable_lock k
