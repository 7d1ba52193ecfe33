-- ===== src/Tests/Files.antt =====
-- The table of open files at concrete entries.
use soproyecto.Common.{◌≡◌, none, some, ok, ◌==◌, if◌then◌else◌, arith, [], ◌∷◌, replicate, refl}
use soproyecto.Tests.Demo.{shell-MayLock, shell, slot}
use soproyecto.Proc.Defs.{sleeping, running}
use soproyecto.Sysfile.{fd_arg, free_fd, dup_arg, close_arg}
use soproyecto.Sysfile.Descriptors.{duplicated, dup_arg-close_arg}
use soproyecto.Files.{File, Files, fd_none, fd_inode, InodeOps}
use soproyecto.Files.Entries.{calm}
use soproyecto.Pipe.Alloc.{pipealloc}
use soproyecto.Pipe.Opening.{IsClean, pipealloc-no_memory}

-- Inodes that hold nothing.
abbrev no_inodes : InodeOps
no_inodes = record {
  iput = λ ip k. ok k;
  ilock = λ ip k. ok k;
  iunlock = λ ip k. ok k;
  stati = λ ip k. [];
  readi = λ ip off n k. (ok (some [], k));
  writei = λ ip off bs k. (ok (none, k));
}

-- The entries 0, 2 and 5 are free, and the others stand for an inode with two references.
abbrev busy_file : File
busy_file = record {
  type = fd_inode;
  ref = 2;
  readable = 1;
  writable = 0;
  pipe = 0;
  ip = 80;
  off = 0;
}

abbrev free_file : File
free_file = record busy_file { type = fd_none; ref = 0 }

abbrev some_files : Files
some_files = record {
  kernel = shell;
  files = λ f.
      if f == 0
      then free_file
      else if f == 2
      then free_file
      else if f == 5
      then free_file
      else busy_file;
}

some_files-IsClean : IsClean some_files
some_files-IsClean f free = ground arith

pipealloc-no_memory_example :
    pipealloc no_inodes (λ k. k) 1 none some_files ≡ ok (none, calm some_files)
pipealloc-no_memory_example =
    pipealloc-no_memory no_inodes (λ k. k) 1 some_files (shell-MayLock 71 2) some_files-IsClean

-- The shell with the files 3, 4 and 3 open, among 16 descriptors.
abbrev with_files : Files
with_files = record some_files {
  kernel = record shell {
    procs =
        slot sleeping 1 0 1 0
        ∷ record (slot running 2 1 0 0) { ofile = 4 ∷ 5 ∷ 4 ∷ replicate 13 0 }
        ∷ [];
  };
}

dup_arg-close_arg_example :
    (dup_arg (some (1, 4)) with_files ≡ ok (3, duplicated with_files 4 3))
    × (fd_arg (some 3) (duplicated with_files 4 3) ≡ ok (some (3, 4), duplicated with_files 4 3))
    × (close_arg no_inodes (λ k. k) 1 (some (3, 4)) (duplicated with_files 4 3)
        ≡ ok (0, calm with_files))
unfolding free_fd
dup_arg-close_arg_example =
    dup_arg-close_arg no_inodes (λ k. k) 1 with_files 1 4 3
      {r = record (slot running 2 1 0 0) { ofile = 4 ∷ 5 ∷ 4 ∷ replicate 13 0 }}
      (shell-MayLock 71 2) (record { nested = λ h. absurd (omega arith); room = omega arith }) refl
      refl refl (omega arith) (omega arith)
