-- ===== src/Proc/Table.antt =====
-- The scans of the process table in proc.c.
use soproyecto.Common.{
  ℕ, zero, suc, Bool, not, ◌&&◌, ◌||◌, Option, none, some, List, [], ◌∷◌, ◌==◌, if◌then◌else◌,
}
use mathlib.Core.Option
use soproyecto.Proc.Defs.{
  unused, sleeping, runnable, zombie, is_state, Proc, with_state, proc_at, write_proc,
}

-- The index of the first slot that passes the test: a scan that ends at `goto found`, `break` or
-- `return`.
unfoldable pub find_index : (Proc → Bool) → List Proc → Option ℕ
find_index test [] = none
find_index test (p ∷ ps) = if test p then some 0 else Option.map suc (find_index test ps)

-- allocproc: `p->state == UNUSED`
unfoldable pub is_unused : Proc → Bool
is_unused p = is_state p.state unused

-- scheduler: not `p->state != RUNNABLE || p->priority != q`
unfoldable pub is_ready : ℕ → Proc → Bool
is_ready q p = not (not (is_state p.state runnable) || not (p.priority == q))

-- wakeup1, for one slot
unfoldable pub wake : ℕ → Proc → Proc
wake chan p = if is_state p.state sleeping && (p.chan == chan) then with_state runnable p else p

unfoldable pub wakeup1 : ℕ → List Proc → List Proc
wakeup1 chan [] = []
wakeup1 chan (p ∷ ps) = wake chan p ∷ wakeup1 chan ps

-- kill, at the slot found
unfoldable pub mark_killed : Proc → Proc
mark_killed p =
    let p' = record p { killed = 1 } in
    if is_state p'.state sleeping then with_state runnable p' else p'

-- One round of exit's loop over the slots, at the address `at`: a child goes to init, and a zombie
-- child wakes init, wherever in the table init is.
unfoldable pub adopt : ℕ → ℕ → ℕ → List Proc → Option Proc → List Proc
adopt at curproc initproc ps none = ps
adopt at curproc initproc ps (some p) =
    let given = write_proc ps at (λ r. record r { parent = initproc }) in
    if p.parent == curproc
    then (if is_state p.state zombie then wakeup1 initproc given else given)
    else ps

-- The loop itself, with `n` rounds left from the address `at` on.
unfoldable pub reparent : ℕ → ℕ → ℕ → ℕ → List Proc → List Proc
reparent zero at curproc initproc ps = ps
reparent (suc n) at curproc initproc ps =
    reparent n (suc at) curproc initproc (adopt at curproc initproc ps (proc_at ps at))

-- What one pass of wait over the table finds: a zombie child by its index, or else whether there
-- is a child.
pub data Children : Type 0 where
  found : ℕ → Children
  alive : Children
  childless : Children

abbrev pub shift : Children → Children
shift (found i) = found (suc i)
shift alive = alive
shift childless = childless

abbrev pub with_kid : Children → Children
with_kid childless = alive
with_kid c = c

unfoldable pub scan_children : ℕ → List Proc → Children
scan_children curproc [] = childless
scan_children curproc (p ∷ ps) =
    if not (p.parent == curproc)
    then shift (scan_children curproc ps)
    else if is_state p.state zombie
    then found 0
    else with_kid (shift (scan_children curproc ps))
