-- ===== src/Sleeplock.antt =====
-- sleeplock.c: locks that a process may hold while it sleeps.
pub mod Ownership
use soproyecto.Common.{
  ℕ, zero, suc, ◌+◌, Bool, true, false, Run, ok, asleep, ◌>>=◌, ◌>>◌, ◌==◌, if◌then◌else◌,
}
use soproyecto.Machine.{update, initlock}
use soproyecto.Proc.Defs.{Sleeplock, Kernel, deref, lock, unlock, myproc}
use soproyecto.Proc.Sched.{sleep, wakeup}

-- `&lk->lk`
abbrev pub spin_of : ℕ → ℕ
spin_of lk = lk + 4

abbrev pub with_sleeplock : ℕ → Sleeplock → Kernel → Kernel
with_sleeplock lk s k = record k { sleeplocks = update k.sleeplocks lk s }

abbrev pub free_lock : Sleeplock
free_lock = record { locked = 0; pid = 0 }

unfoldable pub initsleeplock : ℕ → Kernel → Kernel
initsleeplock lk k =
    with_sleeplock lk free_lock (record k { machine = initlock (spin_of lk) k.machine })

-- The waiting loop, with fuel for its rounds.
unfoldable pub await_lock : (Kernel → Kernel) → (fuel lk : ℕ) → Kernel → Run Kernel
await_lock swtch zero lk k = asleep
await_lock swtch (suc fuel) lk k =
    let again = (sleep swtch lk (spin_of lk) k >>= await_lock swtch fuel lk) in
    if (k.sleeplocks lk).locked == 0 then ok k else again

-- `myproc()->pid`
unfoldable pub my_pid : Kernel → Run (ℕ × Kernel)
my_pid k = do (p, k) ← myproc k; r ← deref p k; ok (r.pid, k)

unfoldable pub acquiresleep : (Kernel → Kernel) → (fuel lk : ℕ) → Kernel → Run Kernel
acquiresleep swtch fuel lk k = do
  k ← lock (spin_of lk) k
  k ← await_lock swtch fuel lk k
  let k = with_sleeplock lk (record (k.sleeplocks lk) { locked = 1 }) k
  (pid, k) ← my_pid k
  unlock (spin_of lk) (with_sleeplock lk (record (k.sleeplocks lk) { pid = pid }) k)

unfoldable pub releasesleep : ℕ → Kernel → Run Kernel
releasesleep lk k = do
  k ← lock (spin_of lk) k
  k ← wakeup lk (with_sleeplock lk free_lock k)
  unlock (spin_of lk) k

-- `lk->locked && (lk->pid == myproc()->pid)`
unfoldable pub is_mine : ℕ → Kernel → Run (Bool × Kernel)
is_mine lk k =
    if (k.sleeplocks lk).locked == 0
    then ok (false, k)
    else do (pid, k) ← my_pid k; ok ((k.sleeplocks lk).pid == pid, k)

unfoldable pub holdingsleep : ℕ → Kernel → Run (Bool × Kernel)
holdingsleep lk k = do
  k ← lock (spin_of lk) k
  (r, k) ← is_mine lk k
  k ← unlock (spin_of lk) k
  ok (r, k)
