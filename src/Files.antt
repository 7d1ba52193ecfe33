-- ===== src/Files.antt =====
-- file.c: the table of open files. A `struct file *` is an index into the table, or `none` for 0.
-- The operations on inodes, which fs.c defines, are arguments.
pub mod Entries
use soproyecto.Common.{
  ℕ, zero, suc, ◌+◌, ◌-◌, ◌*◌, ◌/◌, ◌%◌, ◌^◌, Bool, true, false, not, ◌||◌, Option, none, some,
  List, [], ◌∷◌, length, take, drop, Run, ok, stop, asleep, ◌>>=◌, ◌==◌, ltb, leb, if◌then◌else◌,
  panic_filedup, panic_fileclose, panic_fileread, panic_filewrite, panic_short_filewrite,
}
use soproyecto.Machine.{update, initlock}
use soproyecto.Proc.Defs.{Kernel, lock, unlock}
use soproyecto.Pipe.{pipeclose, piperead, pipewrite}
use soproyecto.Log.{begin_op, end_op}

pub data FileType : Type 0 where
  fd_none fd_pipe fd_inode : FileType

-- struct file
pub record File : Type 0 where
  pub type : FileType
  pub ref : ℕ
  pub readable : ℕ
  pub writable : ℕ
  pub pipe : ℕ
  pub ip : ℕ
  pub off : ℕ

pub record Files : Type 0 where
  pub kernel : Kernel
  pub files : ℕ → File

abbrev pub nfile : ℕ
nfile = 100

-- The address of ftable.lock.
abbrev pub ftable_lock : ℕ
ftable_lock = 71

abbrev pub with_kernel : Kernel → Files → Files
with_kernel k w = record w { kernel = k }

abbrev pub with_file : ℕ → File → Files → Files
with_file f e w = record w { files = update w.files f e }

unfoldable pub fileinit : Files → Files
fileinit w = with_kernel (record w.kernel { machine = initlock ftable_lock w.kernel.machine }) w

unfoldable pub lock_files : Files → Run Files
lock_files w = do k ← lock ftable_lock w.kernel; ok (with_kernel k w)

unfoldable pub unlock_files : Files → Run Files
unlock_files w = do k ← unlock ftable_lock w.kernel; ok (with_kernel k w)

-- The loop of filealloc: the first entry without a reference, of `rounds` from `i` on.
unfoldable pub find_file : (rounds i : ℕ) → (ℕ → File) → Option ℕ
find_file zero i files = none
find_file (suc n) i files =
    let rest = find_file n (i + 1) files in if (files i).ref == 0 then some i else rest

abbrev pub take_file : Option ℕ → Files → Files
take_file none w = w
take_file (some f) w = with_file f (record (w.files f) { ref = 1 }) w

unfoldable pub filealloc : Files → Run (Option ℕ × Files)
filealloc w = do
  w ← lock_files w
  let f = find_file nfile 0 w.files
  w ← unlock_files (take_file f w)
  ok (f, w)

-- `f->ref < 1`, of an int
abbrev pub unreferenced : File → Bool
unreferenced e = (e.ref == 0) || leb (2 ^ 31) e.ref

unfoldable pub filedup : ℕ → Files → Run Files
filedup f w = do
  w ← lock_files w
  let e = w.files f
  if unreferenced e
      then stop panic_filedup
      else unlock_files (with_file f (record e { ref = (e.ref + 1) % 2 ^ 32 }) w)

-- What file.c calls of fs.c. Reads and writes give the bytes and their number, or `none` for -1.
pub record InodeOps : Type 0 where
  pub iput : ℕ → Kernel → Run Kernel
  pub ilock : ℕ → Kernel → Run Kernel
  pub iunlock : ℕ → Kernel → Run Kernel
  pub stati : ℕ → Kernel → List ℕ
  pub readi : (ip off n : ℕ) → Kernel → Run (Option (List ℕ) × Kernel)
  pub writei : (ip off : ℕ) → List ℕ → Kernel → Run (Option ℕ × Kernel)

module _ (inodes : InodeOps) (swtch : Kernel → Kernel) (fuel : ℕ) where
  -- The end of fileclose, for what the entry was.
  abbrev pub close_old : File → Kernel → Run Kernel
  close_old ff k = elim ff.type [
    | fd_none ↦ ok k
    | fd_pipe ↦ pipeclose ff.pipe (not (ff.writable == 0)) k
    | fd_inode ↦ do k ← begin_op swtch fuel k; k ← inodes.iput ff.ip k; end_op k
  ]

  unfoldable pub fileclose : ℕ → Files → Run Files
  fileclose f w = do
    w ← lock_files w
    let ff = record (w.files f) { ref = ((w.files f).ref + 2 ^ 32 - 1) % 2 ^ 32 }
    if unreferenced (w.files f)
        then stop panic_fileclose
        else if not (ff.ref == 0)
        then unlock_files (with_file f ff w)
        else do
          w ← unlock_files (with_file f (record ff { ref = 0; type = fd_none }) w)
          k ← close_old ff w.kernel
          ok (with_kernel k w)

  -- The status is `none` for -1.
  unfoldable pub filestat : ℕ → Files → Run (Option (List ℕ) × Files)
  filestat f w = elim (w.files f).type [
    | fd_inode ↦ do
      k ← inodes.ilock (w.files f).ip w.kernel
      let st = inodes.stati (w.files f).ip k
      k ← inodes.iunlock (w.files f).ip k
      ok (some st, with_kernel k w)
    | _ ↦ ok (none, w)
  ]

  -- `f->off += r`, if r > 0; -1 is `none`.
  abbrev pub move_on : ℕ → Option ℕ → Files → Files
  move_on f none w = w
  move_on f (some r) w = with_file f (record (w.files f) { off = ((w.files f).off + r) % 2 ^ 32 }) w

  abbrev pub count : Option (List ℕ) → Option ℕ
  count none = none
  count (some bs) = some (length bs)

  unfoldable pub fileread : (f n : ℕ) → Files → Run (Option (List ℕ) × Files)
  fileread f n w = if (w.files f).readable == 0 then ok (none, w) else elim (w.files f).type [
    | fd_none ↦ stop panic_fileread
    | fd_pipe ↦ do
      (bs, k) ← piperead swtch fuel (w.files f).pipe n w.kernel
      ok (bs, with_kernel k w)
    | fd_inode ↦ do
      let e = w.files f
      k ← inodes.ilock e.ip w.kernel
      (bs, k) ← inodes.readi e.ip e.off n k
      let w = move_on f (count bs) w
      k ← inodes.iunlock e.ip k
      ok (bs, with_kernel k w)
  ]

  -- The most bytes of one transaction.
  abbrev pub max : ℕ
  max = (10 - 1 - 1 - 2) / 2 * 512

  -- One transaction of filewrite.
  unfoldable pub write_chunk : ℕ → List ℕ → Files → Run (Option ℕ × Files)
  write_chunk f chunk w = do
    let e = w.files f
    k ← begin_op swtch fuel w.kernel
    k ← inodes.ilock e.ip k
    (r, k) ← inodes.writei e.ip e.off chunk k
    let w = move_on f r w
    k ← inodes.iunlock e.ip k
    k ← end_op k
    ok (r, with_kernel k w)

  -- What follows a transaction of `n1` bytes: -1, a panic, or the rest of the loop.
  abbrev pub after_chunk :
      (n1 : ℕ) → (Files → Run (Bool × Files)) → Option ℕ × Files → Run (Bool × Files)
  after_chunk n1 rest (none, w) = ok (false, w)
  after_chunk n1 rest (some r, w) = if r == n1 then rest w else stop panic_short_filewrite

  -- The loop of filewrite over the bytes that are left, with fuel.
  unfoldable pub write_chunks : (rounds f : ℕ) → List ℕ → Files → Run (Bool × Files)
  write_chunks zero f bs w = asleep
  write_chunks (suc n) f bs w =
      let n1 = if ltb max (length bs) then max else length bs in
      let rest = write_chunks n f (drop n1 bs) in
      let round = (write_chunk f (take n1 bs) w >>= after_chunk n1 rest) in
      if ltb 0 (length bs) then round else ok (true, w)

  -- The result is n, or `none` for -1.
  unfoldable pub filewrite : (rounds f : ℕ) → List ℕ → Files → Run (Option ℕ × Files)
  filewrite rounds f bs w =
      if (w.files f).writable == 0 then ok (none, w) else elim (w.files f).type [
        | fd_none ↦ stop panic_filewrite
        | fd_pipe ↦ do
          (r, k) ← pipewrite swtch fuel (w.files f).pipe bs w.kernel
          ok (r, with_kernel k w)
        | fd_inode ↦ do
          (done, w) ← write_chunks rounds f bs w
          ok (if done then some (length bs) else none, w)
      ]
