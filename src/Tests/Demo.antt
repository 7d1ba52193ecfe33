-- ===== src/Tests/Demo.antt =====
-- A small kernel: init sleeps in wait, a shell runs on CPU 0, and other slots are ready or free.
use soproyecto.Common.{ℕ, ◌%◌, ◌+◌, refl, true, false, List, [], ◌∷◌, arith}
use soproyecto.Machine.{Cpu, Machine, unlocked, held_by, update}
use soproyecto.Machine.Locks.{MayLock}
use soproyecto.Proc.Defs.{
  Procstate, unused, sleeping, runnable, running, zombie, trapret, Proc, Pipe, Log, Kernel, modify,
  with_state,
}
use soproyecto.Proc.Alloc.{zero_frame, new_context}
use soproyecto.Proc.Sched.Round.{IsIdle, KeepsMachine}

abbrev pub slot : Procstate → (pid parent chan priority : ℕ) → Proc
slot s pid parent chan priority = record {
  sz = 4096;
  pgdir = 900;
  kstack = 8192;
  state = s;
  pid = pid;
  parent = parent;
  tf = 12212;
  context = 12188;
  chan = chan;
  killed = 0;
  ofile = 0 ∷ 70 ∷ [];
  cwd = 80;
  name = 115 ∷ 104 ∷ 0 ∷ [];
  priority = priority;
  ticks_used = 0;
}

abbrev pub free_slot : Proc
free_slot = slot unused 0 0 0 0

abbrev pub cpu_with : ℕ → Cpu
cpu_with p = record { id = 0; interrupts = true; ncli = 0; intena = false; proc = p }

-- A pipe that has wrapped around: 510 bytes in it, the last two of its buffer free.
abbrev pub small_pipe : Pipe
small_pipe = record {
  bytes = λ i. i % 256;
  nread = 4294967294;
  nwrite = 508;
  readopen = 1;
  writeopen = 1;
}

-- A log on an empty disk, at block 2, with blocks 40 and 41 in a transaction.
abbrev pub small_log : Log
small_log = record {
  start = 2;
  size = 30;
  outstanding = 1;
  committing = 0;
  n = 2;
  block = λ i. 40 + i;
  store = record { disk = λ _ _. 0; cache = λ b w. b + w; dirty = λ _. false; power = 3 };
}

abbrev pub kernel_with : Machine → List Proc → Kernel
kernel_with m ps = record {
  machine = m;
  procs = ps;
  nextpid = 7;
  initproc = 1;
  frames = λ _. zero_frame;
  contexts = λ _. new_context;
  returns = λ _. trapret;
  ticks = 0;
  calls = [];
  pipes = λ _. small_pipe;
  log = small_log;
  sleeplocks = λ _. record { locked = 0; pid = 0 };
}

abbrev pub machine_with : ℕ → Machine
machine_with p = record { cpu = cpu_with p; locks = λ _. unlocked }

-- The slots: init; the shell, which runs; two zombies; a free slot.
abbrev pub family : List Proc
family =
    slot sleeping 1 0 1 0
    ∷ slot running 2 1 0 0
    ∷ slot zombie 3 2 0 1
    ∷ slot zombie 4 1 0 0
    ∷ free_slot
    ∷ []

-- The shell runs.
abbrev pub shell : Kernel
shell = kernel_with (machine_with 2) family

-- The scheduler, with two processes ready in the high queue and one in the low queue.
abbrev pub queues : List Proc
queues =
    slot sleeping 1 0 1 0
    ∷ slot runnable 2 1 0 1
    ∷ slot runnable 3 1 0 0
    ∷ slot runnable 4 1 0 0
    ∷ []

abbrev pub idle_kernel : List Proc → Kernel
idle_kernel ps = kernel_with (machine_with 0) ps

-- The shell, with the lock at address 70 taken.
abbrev pub reader : Kernel
reader =
    kernel_with
      (record {
        cpu = record { id = 0; interrupts = false; ncli = 1; intena = true; proc = 2 };
        locks = update (λ _. unlocked) 70 (held_by 0);
      })
      family

-- A process that gives the CPU back at once, still ready.
abbrev pub gives_back : ℕ → Kernel → Kernel
gives_back i k = record k { procs = modify k.procs i (with_state runnable) }

pub gives_back-KeepsMachine : (i : ℕ) → KeepsMachine (gives_back i)
gives_back-KeepsMachine i k = refl

pub idle_kernel-IsIdle : (ps : List Proc) → IsIdle (idle_kernel ps)
idle_kernel-IsIdle ps = record { free = refl; shallow = refl; nobody = refl }

pub shell-MayLock : (lk p : ℕ) → MayLock lk (machine_with p)
shell-MayLock lk p = record { free = refl; nested = λ h. absurd (omega arith); room = omega arith }
