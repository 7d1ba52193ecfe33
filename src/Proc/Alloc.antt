-- ===== src/Proc/Alloc.antt =====
-- pinit, allocproc, userinit, growproc and fork of proc.c.
-- What kalloc, setupkvm, copyuvm, allocuvm, deallocuvm and namei return is an argument, with 0 for
-- a failure. The int results 0 and -1 are `true` and `false`; fork's -1 is `none`.
pub mod New
pub mod Fork
pub mod Leftover
use soproyecto.Common.{
  ℕ, zero, suc, ◌+◌, ◌-◌, ◌*◌, ◌%◌, ◌^◌, Bool, true, false, not, Option, none, some, List, [], ◌∷◌,
  Run, ok, stop, fault, ◌>>=◌, ◌>>◌, panic_userinit, ◌==◌, if◌then◌else◌,
}
use soproyecto.CString.{safestrcpy}
use soproyecto.Machine.{initlock, int_neg}
use soproyecto.Machine as M
use soproyecto.Proc.Defs.{
  Procstate, unused, embryo, runnable, Context, Trapframe, forkret, trapret, Proc, Call, kfree,
  filedup, idup, switchuvm, inituvm, Kernel, ptable_lock, proc_ptr, deref, assign, with_state, call,
  lock, unlock, myproc,
}
use soproyecto.Proc.Table.{find_index, is_unused}

unfoldable pub pinit : Kernel → Kernel
pinit k = record k { machine = initlock ptable_lock k.machine }

-- A slot at `found`, still under the lock.
abbrev pub reserve : ℕ → Proc → Proc
reserve pid p = record p { state = embryo; pid = pid; priority = 0; ticks_used = 0 }

abbrev pub kstacksize : ℕ
kstacksize = 4096

-- sizeof(struct trapframe)
abbrev pub trapframe_size : ℕ
trapframe_size = 76

-- sizeof(struct context)
abbrev pub context_size : ℕ
context_size = 20

abbrev pub tf_of : ℕ → ℕ
tf_of stack = stack + kstacksize - trapframe_size

abbrev pub context_of : ℕ → ℕ
context_of stack = tf_of stack - 4 - context_size

abbrev pub new_context : Context
new_context = record { edi = 0; esi = 0; ebx = 0; ebp = 0; eip = forkret }

-- The new stack: room for the trap frame, the return to trapret, and the context.
abbrev pub lay_stack : ℕ → ℕ → Kernel → Run Kernel
lay_stack p stack k = do
  k ← assign p (λ r. record r { tf = tf_of stack; context = context_of stack }) k
  ok (record k {
    returns = M.update k.returns (tf_of stack - 4) trapret;
    contexts = M.update k.contexts (context_of stack) new_context;
  })

-- The rest of allocproc, after its scan.
unfoldable pub allocate : ℕ → Kernel → Option ℕ → Run (ℕ × Kernel)
allocate stack k none = do k ← unlock ptable_lock k; ok (0, k)
allocate stack k (some i) = do
  let p = proc_ptr i
  let pid = k.nextpid
  k ← assign p (reserve pid) (record k { nextpid = (pid + 1) % 2 ^ 32 })
  k ← unlock ptable_lock k
  k ← assign p (λ r. record r { kstack = stack }) k
  if stack == 0
      then (do k ← assign p (with_state unused) k; ok (0, k))
      else (do k ← lay_stack p stack k; ok (p, k))

-- `stack` is what kalloc returns, if it is called. The result is the address of a slot, or 0.
unfoldable pub allocproc : ℕ → Kernel → Run (ℕ × Kernel)
unfolding allocate
allocproc stack k = do k ← lock ptable_lock k; allocate stack k (find_index is_unused k.procs)

abbrev pub zero_frame : Trapframe
zero_frame = record {
  edi = 0;
  esi = 0;
  ebp = 0;
  oesp = 0;
  ebx = 0;
  edx = 0;
  ecx = 0;
  eax = 0;
  gs = 0;
  fs = 0;
  es = 0;
  ds = 0;
  trapno = 0;
  err = 0;
  eip = 0;
  cs = 0;
  eflags = 0;
  esp = 0;
  ss = 0;
}

-- (SEG_UCODE << 3) | DPL_USER is 0x1b, (SEG_UDATA << 3) | DPL_USER is 0x23, FL_IF is 0x200.
abbrev pub user_frame : Trapframe
user_frame = record zero_frame {
  cs = 0x1b;
  ds = 0x23;
  es = 0x23;
  ss = 0x23;
  eflags = 0x200;
  esp = 4096;
  eip = 0;
}

-- "initcode", with its NUL
abbrev pub initcode : List ℕ
initcode = 105 ∷ 110 ∷ 105 ∷ 116 ∷ 99 ∷ 111 ∷ 100 ∷ 101 ∷ 0 ∷ []

abbrev pub namesize : ℕ
namesize = 16

-- `pgdir` is what setupkvm returns, `root` what namei("/") returns.
unfoldable pub userinit : (stack pgdir root : ℕ) → Kernel → Run Kernel
userinit stack pgdir root k = do
  (p, k) ← allocproc stack k
  k ← assign p (λ r. record r { pgdir = pgdir }) (record k { initproc = p })
  if pgdir == 0 then stop panic_userinit else do
    k ← assign p (λ r. record r { sz = 4096 }) (call (inituvm pgdir) k)
    r ← deref p k
    k ←
        assign p (λ r. record r { name = safestrcpy r.name initcode namesize; cwd = root })
          (record k { frames = M.update k.frames r.tf user_frame })
    k ← lock ptable_lock k
    k ← assign p (with_state runnable) k
    unlock ptable_lock k

-- `n > 0` and `n < 0` for the pattern of an int.
abbrev pub int_pos : ℕ → Bool
int_pos n = if n == 0 then false else not (int_neg n)

-- The new size: `resize_up` and `resize_down` stand for allocuvm and deallocuvm on the process's
-- page table, from the old size to the new.
unfoldable pub new_size : (resize_up resize_down : ℕ → ℕ → ℕ → ℕ) → ℕ → ℕ → ℕ → Option ℕ
new_size resize_up resize_down pgdir sz n =
    let target = (sz + n) % 2 ^ 32 in
    let up = resize_up pgdir sz target in
    let down = resize_down pgdir sz target in
    if int_pos n
    then (if up == 0 then none else some up)
    else if int_neg n
    then (if down == 0 then none else some down)
    else some sz

-- The rest of growproc at a new size, for the process `p`.
unfoldable pub resize : ℕ → Kernel → Option ℕ → Run (Bool × Kernel)
resize p k none = ok (false, k)
resize p k (some sz) = do
  k ← assign p (λ r. record r { sz = sz }) k
  ok (true, call (switchuvm p) k)

unfoldable pub growproc : (resize_up resize_down : ℕ → ℕ → ℕ → ℕ) → ℕ → Kernel → Run (Bool × Kernel)
unfolding resize
growproc resize_up resize_down n k = do
  (p, k) ← myproc k
  r ← deref p k
  resize p k (new_size resize_up resize_down r.pgdir r.sz n)

-- The loop over the open files: filedup returns the file that it is given.
unfoldable pub dup_files : List ℕ → List ℕ → List ℕ
dup_files [] new = new
dup_files (f ∷ fs) [] = []
dup_files (f ∷ fs) (g ∷ new) = (if f == 0 then g else f) ∷ dup_files fs new

unfoldable pub dup_calls : List ℕ → List Call → List Call
dup_calls [] cs = cs
dup_calls (f ∷ fs) cs = dup_calls fs (if f == 0 then cs else filedup f ∷ cs)

-- What fork copies into the child's slot; idup returns the inode that it is given.
abbrev pub inherit : ℕ → ℕ → Proc → Proc → Proc
inherit curproc pgdir parent child = record child {
  pgdir = pgdir;
  sz = parent.sz;
  parent = curproc;
  ofile = dup_files parent.ofile child.ofile;
  cwd = parent.cwd;
  name = safestrcpy child.name parent.name namesize;
}

-- The child's trap frame, in which fork returns 0.
abbrev pub child_frame : Trapframe → Trapframe
child_frame f = record f { eax = 0 }

-- `stack` and `pgdir` are what kalloc and copyuvm return, if they are called.
unfoldable pub fork : (stack pgdir : ℕ) → Kernel → Run (Option ℕ × Kernel)
fork stack pgdir k = do
  (curproc, k) ← myproc k
  (np, k) ← allocproc stack k
  if np == 0 then ok (none, k) else do
    parent ← deref curproc k
    child ← deref np k
    if pgdir == 0
        then (do
          k ←
              assign np (λ r. record r { pgdir = pgdir; kstack = 0; state = unused })
                (call (kfree child.kstack) k)
          ok (none, k))
        else (do
          let calls = idup parent.cwd ∷ dup_calls parent.ofile k.calls
          let frames = M.update k.frames child.tf (child_frame (k.frames parent.tf))
          k ← assign np (inherit curproc pgdir parent) (record k { calls = calls; frames = frames })
          k ← lock ptable_lock k
          k ← assign np (with_state runnable) k
          k ← unlock ptable_lock k
          ok (some child.pid, k))
