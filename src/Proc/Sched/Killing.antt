-- ===== src/Proc/Sched/Killing.antt =====
-- kill: which slot it marks, and what it reports.
use soproyecto.Common.{
  ℕ, ap, fun_ext, Bool-cases, inl, inr, if◌then◌else◌, ◌≡◌, refl, Bool, true, false, Option, none,
  some, List, ok, ◌==◌, arith,
}
use soproyecto.Machine.Locks.{MayLock}
use soproyecto.Proc.Defs.{runnable, sleeping, is_state, Proc, Kernel, ptable_lock, proc_ptr, modify}
use soproyecto.Proc.Enter.{entered, left, lock-entered, unlock-entered, assign_lem}
use soproyecto.Proc.Table.{find_index, mark_killed}
use soproyecto.Proc.Scan.{IsFirst, NonePass, find_index-some, find_index-none}
use soproyecto.Proc.Sched.{kill}

abbrev pub has_pid : ℕ → Proc → Bool
has_pid pid p = p.pid == pid

-- A slot that is marked: it is killed, and RUNNABLE if it slept.
abbrev pub doomed : Proc → Proc
doomed p = record p { killed = 1; state = if is_state p.state sleeping then runnable else p.state }

mark_killed-doomed : (p : Proc) → mark_killed p ≡ doomed p
unfolding mark_killed
mark_killed-doomed p = elim (Bool-cases (is_state p.state sleeping)) [
  | inl e ↦ rw e refl
  | inr e ↦ rw e refl
]

-- The table after kill, with its report.
abbrev pub Killed : ℕ → List Proc → Bool × List Proc → Type 0
Killed pid ps (true, ps') = (i : ℕ) × IsFirst (has_pid pid) ps i × (ps' ≡ modify ps i doomed)
Killed pid ps (false, ps') = NonePass (has_pid pid) ps × (ps' ≡ ps)

module _ (pid : ℕ) (k : Kernel) (may : MayLock ptable_lock k.machine) where
  pub kill_found :
      (i : ℕ)
      → find_index (has_pid pid) k.procs ≡ some i
      → kill pid k
        ≡ ok (true, record k { machine = left k.machine; procs = modify k.procs i mark_killed })
  unfolding kill
  kill_found i e =
      let k₁ = record k { machine = entered ptable_lock k.machine } in
      rw (lock-entered ptable_lock k may) (
        rw e (
          rw (assign_lem (proc_ptr i) mark_killed k₁ (find_index-some (has_pid pid) k.procs i e).at)
            (rw
              (unlock-entered ptable_lock k.machine
                (record k₁ { procs = modify k.procs i mark_killed }) may refl)
              refl)))

  pub kill_missing :
      find_index (has_pid pid) k.procs ≡ none
      → kill pid k ≡ ok (false, record k { machine = left k.machine })
  unfolding kill
  kill_missing e = rw (lock-entered ptable_lock k may) (
      rw e (
        rw
          (unlock-entered ptable_lock k.machine
            (record k { machine = entered ptable_lock k.machine }) may refl)
          refl))

  -- kill succeeds exactly when some slot has the pid; the first such slot is then killed, and
  -- RUNNABLE if it slept, and otherwise no slot changes. The table's lock must be free.
  pub kill_lem :
      (b : Bool) × (ps : List Proc) × (kill pid k
        ≡ ok (b, record k { machine = left k.machine; procs = ps }))
      × Killed pid k.procs (b, ps)
  kill_lem = go (find_index (has_pid pid) k.procs) refl
    where
      go :
          (o : Option ℕ)
          → find_index (has_pid pid) k.procs ≡ o
          → (b : Bool) × (ps : List Proc) × (kill pid k
              ≡ ok (b, record k { machine = left k.machine; procs = ps }))
            × Killed pid k.procs (b, ps)
      go none e = (false, k.procs, kill_missing e, (find_index-none (has_pid pid) k.procs e, refl))
      go (some i) e = (
        true,
        modify k.procs i mark_killed,
        kill_found i e,
        (
          i,
          find_index-some (has_pid pid) k.procs i e,
          ap (modify k.procs i) (fun_ext mark_killed-doomed),
        ),
      )

-- A process that has been marked no longer sleeps, so it comes to see the mark.
pub mark_killed-awake :
    (p : Proc) → ((mark_killed p).killed ≡ 1) × (is_state (mark_killed p).state sleeping ≡ false)
unfolding mark_killed
mark_killed-awake p = ground arith
