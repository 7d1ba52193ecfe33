-- ===== src/Pipe/Alloc.antt =====
-- pipealloc of pipe.c: two entries of the file table for the ends of a new pipe. `page` is what
-- kalloc returns.
use soproyecto.Common.{ℕ, Option, none, some, Run, ok, ◌>>=◌}
use soproyecto.Machine.{initlock}
use soproyecto.Proc.Defs.{Kernel}
use soproyecto.Pipe.{with_pipe}
use soproyecto.Files.{File, Files, fd_pipe, InodeOps, filealloc, fileclose, with_file, with_kernel}

-- A pipe at the page `p`, empty and open at both ends, with its lock.
abbrev pub new_pipe : ℕ → Kernel → Kernel
new_pipe p k =
    record (with_pipe p (record (k.pipes p) { readopen = 1; writeopen = 1; nwrite = 0; nread = 0 })
      k) { machine = initlock p k.machine }

abbrev pub end_of : (p readable writable : ℕ) → File → File
end_of p readable writable e = record e {
  type = fd_pipe;
  readable = readable;
  writable = writable;
  pipe = p;
}

module _ (inodes : InodeOps) (swtch : Kernel → Kernel) (fuel : ℕ) where
  abbrev pub close_some : Option ℕ → Files → Run Files
  close_some none w = ok w
  close_some (some f) w = fileclose inodes swtch fuel f w

  -- `bad:`, where there is no page to free: kalloc is called last.
  unfoldable pub bad_pipe : (f0 f1 : Option ℕ) → Files → Run (Option (ℕ × ℕ) × Files)
  bad_pipe f0 f1 w = do w ← close_some f0 w; w ← close_some f1 w; ok (none, w)

  -- What follows the three allocations.
  abbrev pub set_up : (page f0 f1 : Option ℕ) → Files → Run (Option (ℕ × ℕ) × Files)
  set_up (some p) (some f0) (some f1) w =
      let w = with_kernel (new_pipe p w.kernel) w in
      let w = with_file f0 (end_of p 1 0 (w.files f0)) w in
      let w = with_file f1 (end_of p 0 1 (w.files f1)) w in ok (some (f0, f1), w)
  set_up none (some f0) (some f1) w = bad_pipe (some f0) (some f1) w
  set_up _ (some f0) none w = bad_pipe (some f0) none w
  set_up _ none _ w = bad_pipe none none w

  -- The second filealloc is called only if the first one finds an entry.
  abbrev pub second_file : Option ℕ → Files → Run (Option ℕ × Files)
  second_file none w = ok (none, w)
  second_file (some f) w = filealloc w

  -- The two files, or `none` for -1.
  unfoldable pub pipealloc : (page : Option ℕ) → Files → Run (Option (ℕ × ℕ) × Files)
  pipealloc page w = do (f0, w) ← filealloc w; (f1, w) ← second_file f0 w; set_up page f0 f1 w
