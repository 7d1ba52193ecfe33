-- ===== src/Syscall/Processes.antt =====
-- sysproc.c: the system calls on processes. A call gives the pattern of its int.
use soproyecto.Common.{
  ℕ, zero, suc, ◌+◌, ◌-◌, ◌%◌, ◌^◌, Option, none, some, List, Run, ok, asleep, ◌>>=◌, ltb,
  if◌then◌else◌,
}
use soproyecto.Proc.Defs.{Kernel, myproc, deref, lock, unlock, tickslock, ticks_chan}
use soproyecto.Proc.Alloc.{fork, growproc}
use soproyecto.Proc.Life.{exit, wait}
use soproyecto.Proc.Sched.{sleep, kill}
use soproyecto.Pipe.{is_killed}
use soproyecto.Syscall.{argint}

abbrev pub minus_one : ℕ
minus_one = 2 ^ 32 - 1

abbrev pub or_minus_one : Option ℕ × Kernel → Run (ℕ × Kernel)
or_minus_one (none, k) = ok (minus_one, k)
or_minus_one (some v, k) = ok (v, k)

unfoldable pub sys_fork : (stack pgdir : ℕ) → Kernel → Run (ℕ × Kernel)
sys_fork stack pgdir k = fork stack pgdir k >>= or_minus_one

-- The state at the switch away; exit does not return.
unfoldable pub sys_exit : (Kernel → Kernel) → Kernel → Run Kernel
sys_exit swtch k = exit swtch k

unfoldable pub sys_wait : List (Kernel → Kernel) → Kernel → Run (ℕ × Kernel)
sys_wait sleeps k = wait sleeps k >>= or_minus_one

abbrev pub kill_arg : Option ℕ × Kernel → Run (ℕ × Kernel)
kill_arg (none, k) = ok (minus_one, k)
kill_arg (some pid, k) = do (done, k) ← kill pid k; ok (if done then 0 else minus_one, k)

unfoldable pub sys_kill : (ℕ → ℕ) → Kernel → Run (ℕ × Kernel)
sys_kill user k = argint user 0 k >>= kill_arg

unfoldable pub sys_getpid : Kernel → Run (ℕ × Kernel)
sys_getpid k = do (p, k) ← myproc k; r ← deref p k; ok (r.pid, k)

abbrev pub grow_arg : (up down : ℕ → ℕ → ℕ → ℕ) → Option ℕ × Kernel → Run (ℕ × Kernel)
grow_arg up down (none, k) = ok (minus_one, k)
grow_arg up down (some n, k) = do
  (p, k) ← myproc k
  r ← deref p k
  (done, k) ← growproc up down n k
  ok (if done then r.sz else minus_one, k)

unfoldable pub sys_sbrk : (ℕ → ℕ) → (up down : ℕ → ℕ → ℕ → ℕ) → Kernel → Run (ℕ × Kernel)
sys_sbrk user up down k = argint user 0 k >>= grow_arg up down

-- The loop of sys_sleep, with fuel for its rounds.
unfoldable pub sleep_ticks : (Kernel → Kernel) → (rounds ticks0 n : ℕ) → Kernel → Run (ℕ × Kernel)
sleep_ticks swtch zero ticks0 n k = asleep
sleep_ticks swtch (suc rounds) ticks0 n k =
    let again = (sleep swtch ticks_chan tickslock k >>= sleep_ticks swtch rounds ticks0 n) in
    let round = (do
      (killed, k) ← is_killed k
      if killed then (do k ← unlock tickslock k; ok (minus_one, k)) else again) in
    let over = (do k ← unlock tickslock k; ok (0, k)) in
    if ltb ((k.ticks + 2 ^ 32 - ticks0) % 2 ^ 32) n then round else over

abbrev pub sleep_arg : (Kernel → Kernel) → (rounds : ℕ) → Option ℕ × Kernel → Run (ℕ × Kernel)
sleep_arg swtch rounds (none, k) = ok (minus_one, k)
sleep_arg swtch rounds (some n, k) = do k ← lock tickslock k; sleep_ticks swtch rounds k.ticks n k

unfoldable pub sys_sleep : (ℕ → ℕ) → (Kernel → Kernel) → (rounds : ℕ) → Kernel → Run (ℕ × Kernel)
sys_sleep user swtch rounds k = argint user 0 k >>= sleep_arg swtch rounds

unfoldable pub sys_uptime : Kernel → Run (ℕ × Kernel)
sys_uptime k = do k ← lock tickslock k; let xticks = k.ticks; k ← unlock tickslock k; ok (xticks, k)
