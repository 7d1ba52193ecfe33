-- ===== src/Proc/Defs.antt =====
-- struct proc, struct trapframe, struct context and ptable.
-- Addresses are numbers: 0 is NULL, and &ptable.proc[i] is i + 1. The channels that processes
-- sleep on are addresses too.
use soproyecto.Common.{
  ℕ, zero, suc, Bool, true, false, Option, none, some, List, [], ◌∷◌, Run, ok, fault, ◌>>=◌, ◌>>◌,
  get_elem?,
}
use soproyecto.Machine.{Cpu, Machine, acquire, release, pushcli, popcli, mycpu}

pub data Procstate : Type 0 where
  unused embryo sleeping runnable running zombie : Procstate

-- `p->state == s`
abbrev pub is_state : Procstate → Procstate → Bool
is_state unused unused = true
is_state embryo embryo = true
is_state sleeping sleeping = true
is_state runnable runnable = true
is_state running running = true
is_state zombie zombie = true
is_state _ _ = false

-- The addresses of code that the kernel writes into a new stack.
pub data CodePtr : Type 0 where
  forkret trapret : CodePtr

-- The registers saved by swtch; the other four are 0 in a new context.
pub record Context : Type 0 where
  pub edi : ℕ
  pub esi : ℕ
  pub ebx : ℕ
  pub ebp : ℕ
  pub eip : CodePtr

pub record Trapframe : Type 0 where
  pub edi : ℕ
  pub esi : ℕ
  pub ebp : ℕ
  pub oesp : ℕ
  pub ebx : ℕ
  pub edx : ℕ
  pub ecx : ℕ
  pub eax : ℕ
  pub gs : ℕ
  pub fs : ℕ
  pub es : ℕ
  pub ds : ℕ
  pub trapno : ℕ
  pub err : ℕ
  pub eip : ℕ
  pub cs : ℕ
  pub eflags : ℕ
  pub esp : ℕ
  pub ss : ℕ

-- An `int` is its 32-bit pattern.
pub record Proc : Type 0 where
  pub sz : ℕ
  pub pgdir : ℕ
  pub kstack : ℕ
  pub state : Procstate
  pub pid : ℕ
  pub parent : ℕ
  pub tf : ℕ
  pub context : ℕ
  pub chan : ℕ
  pub killed : ℕ
  pub ofile : List ℕ
  pub cwd : ℕ
  pub name : List ℕ
  pub priority : ℕ
  pub ticks_used : ℕ

-- struct pipe. Its lock is found at the address of the pipe; `bytes`, its data, has 512 entries.
pub record Pipe : Type 0 where
  pub bytes : ℕ → ℕ
  pub nread : ℕ
  pub nwrite : ℕ
  pub readopen : ℕ
  pub writeopen : ℕ

-- struct sleeplock. The spin lock in it is found 4 bytes past its address.
pub record Sleeplock : Type 0 where
  pub locked : ℕ
  pub pid : ℕ

-- The blocks of the disk, and the buffers by the blocks that they hold: what bread gives. A block is
-- an array, of words where it is the header of the log, and of bytes in the file system. `power` is
-- the number of writes before the power fails.
pub record Store : Type 0 where
  pub disk : ℕ → ℕ → ℕ
  pub cache : ℕ → ℕ → ℕ
  pub dirty : ℕ → Bool
  pub power : ℕ

-- struct log with its logheader, and the disk that it is on.
pub record Log : Type 0 where
  pub start : ℕ
  pub size : ℕ
  pub outstanding : ℕ
  pub committing : ℕ
  pub n : ℕ
  pub block : ℕ → ℕ
  pub store : Store

-- Calls that leave the process table for other parts of the kernel.
pub data Call : Type 0 where
  kfree freevm filedup fileclose idup iput switchuvm : ℕ → Call
  begin_op end_op switchkvm lapiceoi ideintr kbdintr uartintr : Call
  inituvm : ℕ → Call

-- `calls` holds the calls made, the last one first. `frames` and `contexts` are the trap frames
-- and the contexts in memory, by their addresses, and `returns` the words that `ret` takes;
-- `pipes` and `sleeplocks` are the pipes and the sleep locks, by their addresses.
pub record Kernel : Type 0 where
  pub machine : Machine
  pub procs : List Proc
  pub nextpid : ℕ
  pub initproc : ℕ
  pub frames : ℕ → Trapframe
  pub contexts : ℕ → Context
  pub returns : ℕ → CodePtr
  pub ticks : ℕ
  pub calls : List Call
  pub pipes : ℕ → Pipe
  pub sleeplocks : ℕ → Sleeplock
  pub log : Log

abbrev pub nproc : ℕ
nproc = 64

-- The addresses of the locks and channels with a name. No process slot has one of them.
abbrev pub ptable_lock : ℕ
ptable_lock = 65

abbrev pub tickslock : ℕ
tickslock = 66

-- The address of `log`, and of its lock.
abbrev pub log_lock : ℕ
log_lock = 70

abbrev pub ticks_chan : ℕ
ticks_chan = 67

abbrev pub proc_ptr : ℕ → ℕ
proc_ptr i = suc i

module _ {ℓ} {A : Type ℓ} where
  abbrev pub modify : List A → ℕ → (A → A) → List A
  modify [] i f = []
  modify (x ∷ xs) zero f = f x ∷ xs
  modify (x ∷ xs) (suc i) f = x ∷ modify xs i f

-- `*p`, for the address `p` of a slot.
abbrev pub proc_at : List Proc → ℕ → Option Proc
proc_at ps zero = none
proc_at ps (suc i) = get_elem? ps i

abbrev pub write_proc : List Proc → ℕ → (Proc → Proc) → List Proc
write_proc ps zero f = ps
write_proc ps (suc i) f = modify ps i f

-- A read through `p`, which faults at NULL.
unfoldable pub deref : ℕ → Kernel → Run Proc
deref p k = elim (proc_at k.procs p) [ none ↦ fault | some r ↦ ok r ]

-- A write of fields of `*p`, which faults at NULL.
unfoldable pub assign : ℕ → (Proc → Proc) → Kernel → Run Kernel
unfolding deref
assign p f k = do deref p k; ok (record k { procs = write_proc k.procs p f })

abbrev pub with_state : Procstate → Proc → Proc
with_state s p = record p { state = s }

abbrev pub call : Call → Kernel → Kernel
call c k = record k { calls = c ∷ k.calls }

abbrev pub with_cpu : Cpu → Kernel → Kernel
with_cpu c k = record k { machine = record k.machine { cpu = c } }

-- The CPU's own `proc`
abbrev pub with_cpu_proc : ℕ → Kernel → Kernel
with_cpu_proc p k = with_cpu (record k.machine.cpu { proc = p }) k

unfoldable pub lock : ℕ → Kernel → Run Kernel
lock lk k = do m ← acquire lk k.machine; ok (record k { machine = m })

unfoldable pub unlock : ℕ → Kernel → Run Kernel
unlock lk k = do m ← release lk k.machine; ok (record k { machine = m })

-- `myproc`: the address of this CPU's process, or 0.
unfoldable pub myproc : Kernel → Run (ℕ × Kernel)
myproc k = do
  c ← pushcli k.machine.cpu
  this ← mycpu c
  let p = this.proc
  c ← popcli c
  ok (p, with_cpu c k)
