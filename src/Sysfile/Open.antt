-- ===== src/Sysfile/Open.antt =====
-- open and exec of sysfile.c. open works on inodes and on the table of files.
use soproyecto.Common.{
  ℕ, zero, suc, ◌+◌, ◌*◌, ◌/◌, ◌%◌, ◌^◌, Bool, true, false, not, ◌&&◌, ◌||◌, Option, none, some,
  List, [], ◌∷◌, Run, ok, ◌>>=◌, ◌==◌, if◌then◌else◌,
}
use mathlib.Core.Option
use soproyecto.Machine.{update}
use soproyecto.Proc.Defs.{Kernel}
use soproyecto.Syscall.{argint, argstr, fetchint, fetchstr}
use soproyecto.Syscall.Processes.{minus_one}
use soproyecto.Fs.{Fs, with_kernel}
use soproyecto.Fs.Inodes.{iunlock}
use soproyecto.Fs.Content.{t_dir, bytes_at}
use soproyecto.Fs.Directory.{Env}
use soproyecto.Fs.Path.{namei, put_back}
use soproyecto.Files.{File, Files, InodeOps, fd_inode, filealloc, fileclose}
use soproyecto.Sysfile.{fdalloc}
use soproyecto.Sysfile.Links.{t_file, path_arg, begin, end_with, lock_inode, create}

-- The inodes in memory and the table of files.
pub record Opening : Type 0 where
  pub fs : Fs
  pub files : ℕ → File

abbrev pub as_files : Opening → Files
as_files w = record { kernel = w.fs.kernel; files = w.files }

abbrev pub with_files : Files → Opening → Opening
with_files t w = record { fs = with_kernel t.kernel w.fs; files = t.files }

abbrev pub with_fs : Fs → Opening → Opening
with_fs s w = record w { fs = s }

-- `omode & O_CREATE`, `omode & O_WRONLY` and `omode & O_RDWR`
abbrev pub creates : ℕ → Bool
creates omode = omode / 512 % 2 == 1

abbrev pub writes_only : ℕ → Bool
writes_only omode = omode % 2 == 1

abbrev pub writes_too : ℕ → Bool
writes_too omode = omode / 2 % 2 == 1

abbrev pub flag : Bool → ℕ
flag true = 1
flag false = 0

-- The entry of the table for the inode.
abbrev pub opened_file : (ip omode : ℕ) → File → File
opened_file ip omode e = record e {
  type = fd_inode;
  ip = ip;
  off = 0;
  readable = flag (not (writes_only omode));
  writable = flag (writes_only omode || writes_too omode);
}

module _ (env : Env) (inodes : InodeOps) where
  -- The failure for want of a file or a descriptor.
  unfoldable pub open_failed : (ip : ℕ) → Opening → Run (ℕ × Opening)
  open_failed ip w = do
    s ← put_back env ip w.fs
    (v, s) ← end_with env minus_one s
    ok (v, with_fs s w)

  abbrev pub open_fd : (ip omode f : ℕ) → Option ℕ → Opening → Run (ℕ × Opening)
  open_fd ip omode f none w = do
    t ← fileclose inodes env.swtch env.fuel f (as_files w)
    open_failed ip (with_files t w)
  open_fd ip omode f (some fd) w = do
    s ← iunlock env.icache ip w.fs
    (v, s) ← end_with env fd s
    ok (v, record { fs = s; files = update w.files f (opened_file ip omode (w.files f)) })

  abbrev pub open_file : (ip omode : ℕ) → Option ℕ → Opening → Run (ℕ × Opening)
  open_file ip omode none w = open_failed ip w
  open_file ip omode (some f) w = do
    (fd, t) ← fdalloc f (as_files w)
    open_fd ip omode f fd (with_files t w)

  -- sys_open from the locked inode on, or without one.
  unfoldable pub open_inode : (omode : ℕ) → Option ℕ → Opening → Run (ℕ × Opening)
  open_inode omode none w = do (v, s) ← end_with env minus_one w.fs; ok (v, with_fs s w)
  open_inode omode (some ip) w = do
    (f, t) ← filealloc (as_files w)
    open_file ip omode f (with_files t w)

  -- The inode of a path that is there already: a directory is opened for reading only.
  abbrev pub open_found : (omode : ℕ) → Option (ℕ × List ℕ) → Fs → Run (Option ℕ × Fs)
  open_found omode none s = ok (none, s)
  open_found omode (some (ip, _)) s = do
    s ← lock_inode env ip s
    if ((s.inodes ip).type == t_dir) && not (omode == 0)
        then (do s ← put_back env ip s; ok (none, s))
        else ok (some ip, s)

  unfoldable pub open_path : (path : List ℕ) (omode : ℕ) → Fs → Run (Option ℕ × Fs)
  open_path path omode s =
      if creates omode
      then create env path t_file 0 0 s
      else (do (ip, s) ← namei env path s; open_found omode ip s)

  abbrev pub open_args : Option (List ℕ) → Option ℕ → Opening → Run (ℕ × Opening)
  open_args (some path) (some omode) w = do
    s ← begin env w.fs
    (ip, s) ← open_path path omode s
    open_inode omode ip (with_fs s w)
  open_args (some path) none w = ok (minus_one, w)
  open_args none omode w = ok (minus_one, w)

  abbrev pub open_mode : (ℕ → ℕ) → Option (List ℕ) → Opening → Run (ℕ × Opening)
  open_mode user none w = ok (minus_one, w)
  open_mode user (some path) w = do
    (omode, k) ← argint user 1 w.fs.kernel
    open_args (some path) omode (with_fs (with_kernel k w.fs) w)

  unfoldable pub sys_open : (ℕ → ℕ) → Opening → Run (ℕ × Opening)
  sys_open user w = do (path, s) ← path_arg user 0 w.fs; open_mode user path (with_fs s w)

-- MAXARG
abbrev pub maxarg : ℕ
maxarg = 32

-- The arguments of exec behind this one.
abbrev pub add_arg :
    (ℕ → ℕ)
    → (addr : ℕ) → Option ℕ
    → (Kernel → Run (Option (List (List ℕ)) × Kernel))
    → Kernel
    → Run (Option (List (List ℕ)) × Kernel)
add_arg user addr none rest k = ok (none, k)
add_arg user addr (some len) rest k = do
  (l, k) ← rest k
  ok (Option.map (λ l. bytes_at user addr len ∷ l) l, k)

abbrev pub next_arg :
    (ℕ → ℕ)
    → Option ℕ
    → (Kernel → Run (Option (List (List ℕ)) × Kernel))
    → Kernel
    → Run (Option (List (List ℕ)) × Kernel)
next_arg user none rest k = ok (none, k)
next_arg user (some uarg) rest k =
    let string = (do (len, k) ← fetchstr user uarg k; add_arg user uarg len rest k) in
    if uarg == 0 then ok (some [], k) else string

-- The loop of sys_exec, with `n` places of argv left from `i` on.
unfoldable pub fetch_args :
    (ℕ → ℕ) → (uargv n i : ℕ) → Kernel → Run (Option (List (List ℕ)) × Kernel)
fetch_args user uargv zero i k = ok (none, k)
fetch_args user uargv (suc n) i k = do
  (uarg, k) ← fetchint user ((uargv + 4 * i) % 2 ^ 32) k
  next_arg user uarg (fetch_args user uargv n (i + 1)) k

-- `exec` is an argument.
module _ (exec : List ℕ → List (List ℕ) → Kernel → Run (ℕ × Kernel)) where
  abbrev pub exec_args : (path : List ℕ) → Option (List (List ℕ)) → Kernel → Run (ℕ × Kernel)
  exec_args path none k = ok (minus_one, k)
  exec_args path (some argv) k = exec path argv k

  abbrev pub exec_argv : (ℕ → ℕ) → (path : List ℕ) → Option ℕ → Kernel → Run (ℕ × Kernel)
  exec_argv user path none k = ok (minus_one, k)
  exec_argv user path (some uargv) k = do
    (argv, k) ← fetch_args user uargv maxarg 0 k
    exec_args path argv k

  abbrev pub exec_path : (ℕ → ℕ) → Option (ℕ × ℕ) → Kernel → Run (ℕ × Kernel)
  exec_path user none k = ok (minus_one, k)
  exec_path user (some (a, len)) k = do
    (uargv, k) ← argint user 1 k
    exec_argv user (bytes_at user a len) uargv k

  unfoldable pub sys_exec : (ℕ → ℕ) → Kernel → Run (ℕ × Kernel)
  sys_exec user k = do (path, k) ← argstr user 0 k; exec_path user path k
