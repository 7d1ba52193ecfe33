-- ===== src/Trap.antt =====
-- trap.c of the modified kernel: dispatch of traps, and the two-level feedback queue.
-- `syscall` and the switches of exit and yield are arguments; cprintf is left out, and a call of a
-- device's handler is recorded. Repeated calls of myproc in one condition are made once.
pub mod Queues
use soproyecto.Common.{
  ℕ, ◌+◌, ◌-◌, ◌%◌, ◌^◌, ◌≤◌, Bool, true, false, not, ◌&&◌, ◌||◌, Run, ok, stop, ◌>>=◌, ◌>>◌,
  panic_trap, ◌==◌, leb, if◌then◌else◌,
}
use soproyecto.Machine.{mycpu, int_neg}
use soproyecto.Proc.Defs.{
  running, is_state, Proc, Trapframe, Call, lapiceoi, ideintr, kbdintr, uartintr, Kernel, tickslock,
  ticks_chan, deref, assign, call, lock, unlock, myproc,
}
use soproyecto.Proc.Sched.{yield_cpu, wakeup}
use soproyecto.Proc.Life.{exit}

-- `p->ticks_used >= 5`, for the pattern of an int
abbrev pub quantum_used : ℕ → Bool
quantum_used t = if int_neg t then false else leb 5 t

-- `ticks_used++`
abbrev pub count_tick : Proc → Proc
count_tick p = record p { ticks_used = (p.ticks_used + 1) % 2 ^ 32 }

-- The demotion.
abbrev pub demote : Proc → Proc
demote p =
    if (p.priority == 0) && quantum_used p.ticks_used
    then record p { priority = 1; ticks_used = 0 }
    else p

-- What a timer tick does to the running process's place in the queues.
unfoldable pub charge : Proc → Proc
charge p = demote (count_tick p)

abbrev pub t_syscall : ℕ
t_syscall = 64

abbrev pub t_irq0 : ℕ
t_irq0 = 32

-- `(tf->cs & 3) == DPL_USER`
abbrev pub from_user : Trapframe → Bool
from_user f = f.cs % 4 == 3

-- A trap either returns or ends in exit, with the state at the switch away.
pub data Trapped : Type 0 where
  returned : Kernel → Trapped
  exited : Kernel → Trapped

module _ (leave : Kernel → Kernel) where
  -- `if (myproc() && myproc()->killed && (tf->cs & 3) == DPL_USER) exit();` before the rest.
  unfoldable pub exit_if_killed : Trapframe → (Kernel → Run Trapped) → Kernel → Run Trapped
  exit_if_killed f rest k = do
    (p, k) ← myproc k
    if p == 0 then rest k else do
      r ← deref p k
      if not (r.killed == 0) && from_user f then (do k ← exit leave k; ok (exited k)) else rest k

  -- `if (myproc()->killed) exit();` before the rest.
  unfoldable pub exit_if_dead : (Kernel → Run Trapped) → Kernel → Run Trapped
  exit_if_dead rest k = do
    (p, k) ← myproc k
    r ← deref p k
    if r.killed == 0 then rest k else do k ← exit leave k; ok (exited k)

  unfoldable pub trap_syscall : (Kernel → Run Kernel) → ℕ → Kernel → Run Trapped
  trap_syscall syscall tf = exit_if_dead λ k. do
    (p, k) ← myproc k
    k ← assign p (λ r. record r { tf = tf }) k
    k ← syscall k
    exit_if_dead (λ k. ok (returned k)) k

-- The timer interrupt: CPU 0 counts the tick and wakes the sleepers on it.
unfoldable pub timer : Kernel → Run Kernel
timer k = do
  c ← mycpu k.machine.cpu
  k ← if not (c.id == 0) then ok k else do
    k ← lock tickslock k
    k ← wakeup ticks_chan (record k { ticks = (k.ticks + 1) % 2 ^ 32 })
    unlock tickslock k
  ok (call lapiceoi k)

-- A trap that the kernel does not know.
unfoldable pub unexpected : Trapframe → Kernel → Run Kernel
unexpected f k = do
  (p, k) ← myproc k
  if (p == 0) || (f.cs % 4 == 0) then stop panic_trap else assign p (λ r. record r { killed = 1 }) k

-- The switch on the trap number.
unfoldable pub dispatch : Trapframe → Kernel → Run Kernel
dispatch f k =
    let n = f.trapno in
    if n == t_irq0
    then timer k
    else if n == t_irq0 + 14
    then ok (call lapiceoi (call ideintr k))
    else if n == t_irq0 + 15
    then ok k
    else if n == t_irq0 + 1
    then ok (call lapiceoi (call kbdintr k))
    else if n == t_irq0 + 4
    then ok (call lapiceoi (call uartintr k))
    else if (n == t_irq0 + 7) || (n == t_irq0 + 31)
    then ok (call lapiceoi k)
    else unexpected f k

-- The part of trap that keeps the two queues: on a timer tick the running process is charged and
-- gives up the CPU.
unfoldable pub mlfq_tick : (Kernel → Kernel) → Trapframe → Kernel → Run Kernel
mlfq_tick swtch f k = do
  (p, k) ← myproc k
  if p == 0 then ok k else do
    r ← deref p k
    if not (is_state r.state running && (f.trapno == t_irq0))
        then ok k
        else do k ← assign p charge k; yield_cpu swtch k

unfoldable pub trap :
    (leave swtch : Kernel → Kernel) → (Kernel → Run Kernel) → ℕ → Kernel → Run Trapped
trap leave swtch syscall tf k =
    let f = k.frames tf in
    if f.trapno == t_syscall then trap_syscall leave syscall tf k else do
      k ← dispatch f k
      exit_if_killed leave f
          (λ k. do k ← mlfq_tick swtch f k; exit_if_killed leave f (λ k. ok (returned k)) k) k
