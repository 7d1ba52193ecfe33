-- ===== src/Sysfile.antt =====
-- sysfile.c: the system calls on files. Here are those on descriptors. In `ofile`, 0 is NULL and
-- the address of entry `f` of the table of files is `f + 1`. `user` are the bytes of the address
-- space; a call gives the pattern of its int, and what it stores in user memory.
pub mod Descriptors
pub mod Links
pub mod Open
use soproyecto.Common.{
  ℕ, zero, suc, ◌+◌, ◌-◌, ◌%◌, ◌^◌, Bool, true, false, Option, none, some, List, [], ◌∷◌, get_elem?,
  set, Run, ok, ◌>>=◌, ◌==◌, leb, if◌then◌else◌,
}
use mathlib.Core.Option
use soproyecto.Proc.Defs.{Kernel, Proc, myproc, deref, assign}
use soproyecto.Syscall.{argint, argptr}
use soproyecto.Syscall.Processes.{minus_one}
use soproyecto.Fs.Content.{bytes_at}
use soproyecto.Files.{
  Files, InodeOps, with_kernel, filedup, fileclose, fileread, filewrite, filestat,
}
use soproyecto.Pipe.Alloc.{pipealloc}

abbrev pub nofile : ℕ
nofile = 16

-- The entry that a pointer of `ofile` is of.
abbrev pub entry_of : Option ℕ → Option ℕ
entry_of none = none
entry_of (some zero) = none
entry_of (some (suc f)) = some f

-- The rest of argfd, for the argument.
abbrev pub fd_arg : Option ℕ → Files → Run (Option (ℕ × ℕ) × Files)
fd_arg none w = ok (none, w)
fd_arg (some fd) w = if leb nofile fd then ok (none, w) else do
  (p, k) ← myproc w.kernel
  r ← deref p k
  ok (Option.map (λ f. (fd, f)) (entry_of (get_elem? r.ofile fd)), with_kernel k w)

-- The descriptor and the file. A descriptor below 0 is a pattern above 16.
unfoldable pub argfd : (ℕ → ℕ) → (n : ℕ) → Files → Run (Option (ℕ × ℕ) × Files)
argfd user n w = do (fd, k) ← argint user n w.kernel; fd_arg fd (with_kernel k w)

-- The loop of fdalloc: the first descriptor that is free.
unfoldable pub free_fd : List ℕ → Option ℕ
free_fd [] = none
free_fd (v ∷ ofile) = if v == 0 then some 0 else Option.map suc (free_fd ofile)

-- `ofile[fd] = v`
abbrev pub with_fd : (fd v : ℕ) → Proc → Proc
with_fd fd v r = record r { ofile = set r.ofile fd v }

abbrev pub place_fd : (p f : ℕ) → Option ℕ → Files → Run (Option ℕ × Files)
place_fd p f none w = ok (none, w)
place_fd p f (some fd) w = do
  k ← assign p (with_fd fd (suc f)) w.kernel
  ok (some fd, with_kernel k w)

unfoldable pub fdalloc : (f : ℕ) → Files → Run (Option ℕ × Files)
fdalloc f w = do
  (p, k) ← myproc w.kernel
  r ← deref p k
  place_fd p f (free_fd r.ofile) (with_kernel k w)

abbrev pub dup_into : (f : ℕ) → Option ℕ → Files → Run (ℕ × Files)
dup_into f none w = ok (minus_one, w)
dup_into f (some fd) w = do w ← filedup f w; ok (fd, w)

-- sys_dup after its argument.
unfoldable pub dup_arg : Option (ℕ × ℕ) → Files → Run (ℕ × Files)
dup_arg none w = ok (minus_one, w)
dup_arg (some (fd, f)) w = do (new, w) ← fdalloc f w; dup_into f new w

unfoldable pub sys_dup : (ℕ → ℕ) → Files → Run (ℕ × Files)
sys_dup user w = do (a, w) ← argfd user 0 w; dup_arg a w

-- `myproc()->ofile[fd] = 0`
unfoldable pub clear_fd : (fd : ℕ) → Files → Run Files
clear_fd fd w = do (p, k) ← myproc w.kernel; k ← assign p (with_fd fd 0) k; ok (with_kernel k w)

-- The arguments of read and write: the file, the buffer and the number of bytes.
abbrev pub buffer_at : (ℕ → ℕ) → (f : ℕ) → Option ℕ → Files → Run (Option (ℕ × ℕ × ℕ) × Files)
buffer_at user f none w = ok (none, w)
buffer_at user f (some n) w = do
  (p, k) ← argptr user 1 n w.kernel
  ok (Option.map (λ a. (f, a, n)) p, with_kernel k w)

abbrev pub buffer_of : (ℕ → ℕ) → Option (ℕ × ℕ) → Files → Run (Option (ℕ × ℕ × ℕ) × Files)
buffer_of user none w = ok (none, w)
buffer_of user (some (fd, f)) w = do
  (n, k) ← argint user 2 w.kernel
  buffer_at user f n (with_kernel k w)

unfoldable pub buffer_args : (ℕ → ℕ) → Files → Run (Option (ℕ × ℕ × ℕ) × Files)
buffer_args user w = do (a, w) ← argfd user 0 w; buffer_of user a w

module _ (inodes : InodeOps) (swtch : Kernel → Kernel) (fuel : ℕ) where
  -- The address of the buffer and the bytes that are read, or `none` for -1.
  abbrev pub read_into : Option (ℕ × ℕ × ℕ) → Files → Run (Option (ℕ × List ℕ) × Files)
  read_into none w = ok (none, w)
  read_into (some (f, a, n)) w = do
    (bs, w) ← fileread inodes swtch fuel f n w
    ok (Option.map (λ l. (a, l)) bs, w)

  unfoldable pub sys_read : (ℕ → ℕ) → Files → Run (Option (ℕ × List ℕ) × Files)
  sys_read user w = do (a, w) ← buffer_args user w; read_into a w

  -- `rounds` is fuel for the transactions of filewrite.
  abbrev pub write_from :
      (rounds : ℕ) → (ℕ → ℕ) → Option (ℕ × ℕ × ℕ) → Files → Run (Option ℕ × Files)
  write_from rounds user none w = ok (none, w)
  write_from rounds user (some (f, a, n)) w =
      filewrite inodes swtch fuel rounds f (bytes_at user a n) w

  unfoldable pub sys_write : (rounds : ℕ) → (ℕ → ℕ) → Files → Run (Option ℕ × Files)
  sys_write rounds user w = do (a, w) ← buffer_args user w; write_from rounds user a w

  -- sys_close after its argument.
  unfoldable pub close_arg : Option (ℕ × ℕ) → Files → Run (ℕ × Files)
  close_arg none w = ok (minus_one, w)
  close_arg (some (fd, f)) w = do w ← clear_fd fd w; w ← fileclose inodes swtch fuel f w; ok (0, w)

  unfoldable pub sys_close : (ℕ → ℕ) → Files → Run (ℕ × Files)
  sys_close user w = do (a, w) ← argfd user 0 w; close_arg a w

  -- The address of the struct stat, of 20 bytes, and its fields.
  abbrev pub stat_at : (f : ℕ) → Option ℕ → Files → Run (Option (ℕ × List ℕ) × Files)
  stat_at f none w = ok (none, w)
  stat_at f (some a) w = do
    (st, w) ← filestat inodes swtch fuel f w
    ok (Option.map (λ l. (a, l)) st, w)

  abbrev pub stat_of : (ℕ → ℕ) → Option (ℕ × ℕ) → Files → Run (Option (ℕ × List ℕ) × Files)
  stat_of user none w = ok (none, w)
  stat_of user (some (fd, f)) w = do
    (a, k) ← argptr user 1 20 w.kernel
    stat_at f a (with_kernel k w)

  unfoldable pub sys_fstat : (ℕ → ℕ) → Files → Run (Option (ℕ × List ℕ) × Files)
  sys_fstat user w = do (a, w) ← argfd user 0 w; stat_of user a w

  -- The failure of sys_pipe for want of a descriptor.
  abbrev pub close_both : (rf wf : ℕ) → Files → Run (Option (ℕ × ℕ × ℕ) × Files)
  close_both rf wf w = do
    w ← fileclose inodes swtch fuel rf w
    w ← fileclose inodes swtch fuel wf w
    ok (none, w)

  abbrev pub second_fd : (a rf wf fd0 : ℕ) → Option ℕ → Files → Run (Option (ℕ × ℕ × ℕ) × Files)
  second_fd a rf wf fd0 none w = do w ← clear_fd fd0 w; close_both rf wf w
  second_fd a rf wf fd0 (some fd1) w = ok (some (a, fd0, fd1), w)

  abbrev pub first_fd : (a rf wf : ℕ) → Option ℕ → Files → Run (Option (ℕ × ℕ × ℕ) × Files)
  first_fd a rf wf none w = close_both rf wf w
  first_fd a rf wf (some fd0) w = do (fd1, w) ← fdalloc wf w; second_fd a rf wf fd0 fd1 w

  abbrev pub pipe_fds : (a : ℕ) → Option (ℕ × ℕ) → Files → Run (Option (ℕ × ℕ × ℕ) × Files)
  pipe_fds a none w = ok (none, w)
  pipe_fds a (some (rf, wf)) w = do (fd0, w) ← fdalloc rf w; first_fd a rf wf fd0 w

  abbrev pub pipe_at : (page : Option ℕ) → Option ℕ → Files → Run (Option (ℕ × ℕ × ℕ) × Files)
  pipe_at page none w = ok (none, w)
  pipe_at page (some a) w = do (fs, w) ← pipealloc inodes swtch fuel page w; pipe_fds a fs w

  -- The address of the array and the two descriptors, or `none` for -1.
  unfoldable pub sys_pipe : (ℕ → ℕ) → (page : Option ℕ) → Files → Run (Option (ℕ × ℕ × ℕ) × Files)
  sys_pipe user page w = do (a, k) ← argptr user 0 8 w.kernel; pipe_at page a (with_kernel k w)
