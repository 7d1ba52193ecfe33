-- ===== src/Proc/Life.antt =====
-- exit and wait of proc.c.
pub mod End
pub mod Collect
pub mod Orphans
pub mod Reparent
use soproyecto.Common.{
  ℕ, zero, suc, ◌+◌, Bool, true, false, not, ◌||◌, Option, none, some, List, [], ◌∷◌, Run, ok, stop,
  asleep, ◌>>=◌, ◌>>◌, panic_init_exiting, ◌==◌, if◌then◌else◌,
}
use soproyecto.Proc.Defs.{
  unused, zombie, Proc, Call, kfree, freevm, fileclose, iput, begin_op, end_op, Kernel, nproc,
  ptable_lock, proc_ptr, deref, assign, with_state, call, lock, unlock, myproc,
}
use soproyecto.Proc.Table.{wakeup1, reparent, Children, found, alive, childless, scan_children}
use soproyecto.Proc.Sched.{sched, sleep}

-- The loop of exit over the open files.
unfoldable pub close_files : List ℕ → List ℕ
close_files [] = []
close_files (f ∷ fs) = (if f == 0 then f else 0) ∷ close_files fs

unfoldable pub close_calls : List ℕ → List Call → List Call
close_calls [] cs = cs
close_calls (f ∷ fs) cs = close_calls fs (if f == 0 then cs else fileclose f ∷ cs)

-- All of exit up to its call of sched.
unfoldable pub exit_prepare : Kernel → Run Kernel
exit_prepare k = do
  (curproc, k) ← myproc k
  if curproc == k.initproc then stop panic_init_exiting else do
    r ← deref curproc k
    let calls = end_op ∷ iput r.cwd ∷ begin_op ∷ close_calls r.ofile k.calls
    k ←
        assign curproc (λ r. record r { ofile = close_files r.ofile; cwd = 0 })
          (record k { calls = calls })
    k ← lock ptable_lock k
    let woken = wakeup1 r.parent k.procs
    let given = reparent nproc 1 curproc k.initproc woken
    assign curproc (with_state zombie) (record k { procs = given })

-- `panic("zombie exit")` would follow, but the switch in sched never comes back to a zombie. What
-- `swtch` gives is the state in which other code goes on.
unfoldable pub exit : (Kernel → Kernel) → Kernel → Run Kernel
exit swtch k = do k ← exit_prepare k; sched swtch k

-- `p->name[0] = 0`
abbrev pub erase_name : List ℕ → List ℕ
erase_name [] = []
erase_name (b ∷ bs) = 0 ∷ bs

-- The slot that wait frees.
abbrev pub reap : Proc → Proc
reap p = record p {
  kstack = 0;
  pid = 0;
  parent = 0;
  name = erase_name p.name;
  killed = 0;
  state = unused;
}

-- The rest of one turn of wait, after its scan: a return of wait, or `none` where it goes on to
-- sleep. The result -1 of wait is `none`.
unfoldable pub reap_or_wait : ℕ → Kernel → Children → Run (Option (Option ℕ) × Kernel)
reap_or_wait curproc k (found i) = do
  r ← deref (proc_ptr i) k
  k ← assign (proc_ptr i) reap (call (freevm r.pgdir) (call (kfree r.kstack) k))
  k ← unlock ptable_lock k
  ok (some (some r.pid), k)
reap_or_wait curproc k alive = do
  self ← deref curproc k
  if self.killed == 0 then ok (none, k) else (do k ← unlock ptable_lock k; ok (some none, k))
reap_or_wait curproc k childless = do k ← unlock ptable_lock k; ok (some none, k)

-- One turn of the endless loop of wait, with the lock held.
unfoldable pub wait_pass : ℕ → Kernel → Run (Option (Option ℕ) × Kernel)
unfolding reap_or_wait
wait_pass curproc k = reap_or_wait curproc k (scan_children curproc k.procs)

-- What follows a turn: a return, or a sleep and the rest of the loop.
abbrev pub after_pass :
    (Kernel → Run (Option ℕ × Kernel)) → Option (Option ℕ) × Kernel → Run (Option ℕ × Kernel)
after_pass rest (some r, k) = ok (r, k)
after_pass rest (none, k) = rest k

-- The loop. The list holds what happens in each sleep; when it ends, the process still sleeps.
unfoldable pub wait_loop : List (Kernel → Kernel) → ℕ → Kernel → Run (Option ℕ × Kernel)
wait_loop [] curproc k = wait_pass curproc k >>= after_pass (λ _. asleep)
wait_loop (swtch ∷ later) curproc k =
    wait_pass curproc k
    >>= after_pass (λ k. sleep swtch curproc ptable_lock k >>= wait_loop later curproc)

unfoldable pub wait : List (Kernel → Kernel) → Kernel → Run (Option ℕ × Kernel)
wait sleeps k = do (curproc, k) ← myproc k; k ← lock ptable_lock k; wait_loop sleeps curproc k
