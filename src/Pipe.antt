-- ===== src/Pipe.antt =====
-- pipe.c: the ring buffer of a pipe, and its readers and writers. The bytes at `addr` are an
-- argument of a write and a result of a read.
pub mod Ring
pub mod Transfer
pub mod Closing
pub mod Alloc
pub mod Opening
use soproyecto.Common.{
  ℕ, zero, suc, ◌+◌, ◌%◌, ◌^◌, Bool, true, false, not, ◌&&◌, ◌||◌, Option, none, some, List, [],
  ◌∷◌, length, Run, ok, asleep, ◌>>=◌, ◌>>◌, ◌==◌, if◌then◌else◌,
}
use soproyecto.Machine.{update}
use soproyecto.Proc.Defs.{Pipe, Kernel, kfree, deref, call, lock, unlock, myproc}
use soproyecto.Proc.Sched.{sleep, wakeup}

abbrev pub pipesize : ℕ
pipesize = 512

-- The addresses of `p->nread` and `p->nwrite`: the lock takes 52 bytes and the data 512.
abbrev pub nread_of : ℕ → ℕ
nread_of p = p + 564

abbrev pub nwrite_of : ℕ → ℕ
nwrite_of p = p + 568

abbrev pub with_pipe : ℕ → Pipe → Kernel → Kernel
with_pipe p q k = record k { pipes = update k.pipes p q }

-- `p->nwrite == p->nread + PIPESIZE`
abbrev pub is_full : Pipe → Bool
is_full q = q.nwrite == (q.nread + pipesize) % 2 ^ 32

-- `p->nread == p->nwrite`
abbrev pub is_empty : Pipe → Bool
is_empty q = q.nread == q.nwrite

-- `p->data[p->nwrite++ % PIPESIZE] = b`
abbrev pub put : ℕ → Pipe → Pipe
put b q = record q {
  bytes = update q.bytes (q.nwrite % pipesize) b;
  nwrite = (q.nwrite + 1) % 2 ^ 32;
}

-- `p->nread++`
abbrev pub advance : Pipe → Pipe
advance q = record q { nread = (q.nread + 1) % 2 ^ 32 }

-- The end that is closed.
abbrev pub close_end : Bool → Pipe → Pipe
close_end writable q = if writable then record q { writeopen = 0 } else record q { readopen = 0 }

unfoldable pub pipeclose : ℕ → Bool → Kernel → Run Kernel
pipeclose p writable k = do
  k ← lock p k
  k ←
      wakeup (if writable then nread_of p else nwrite_of p)
        (with_pipe p (close_end writable (k.pipes p)) k)
  let q = k.pipes p
  if (q.readopen == 0) && (q.writeopen == 0)
      then (do k ← unlock p k; ok (call (kfree p) k))
      else unlock p k

-- `myproc()->killed`
unfoldable pub is_killed : Kernel → Run (Bool × Kernel)
is_killed k = do (this, k) ← myproc k; r ← deref this k; ok (not (r.killed == 0), k)

module _ (swtch : Kernel → Kernel) where
  -- `p->readopen == 0 || myproc()->killed`
  unfoldable pub gives_up : ℕ → Kernel → Run (Bool × Kernel)
  gives_up p k = if (k.pipes p).readopen == 0 then ok (true, k) else is_killed k

  -- The inner loop of pipewrite, with fuel. On `false` the lock has been released.
  unfoldable pub await_room : ℕ → ℕ → Kernel → Run (Bool × Kernel)
  await_room zero p k = asleep
  await_room (suc fuel) p k =
      let again = (do
        k ← wakeup (nread_of p) k
        k ← sleep swtch (nwrite_of p) p k
        await_room fuel p k) in
      let refuse = (do
        (b, k) ← gives_up p k
        if b then (do k ← unlock p k; ok (false, k)) else again) in
      if is_full (k.pipes p) then refuse else ok (true, k)

  -- The loop over the bytes.
  unfoldable pub write_bytes : ℕ → ℕ → List ℕ → Kernel → Run (Bool × Kernel)
  write_bytes fuel p [] k = ok (true, k)
  write_bytes fuel p (b ∷ bs) k = do
    (room, k) ← await_room fuel p k
    let rest = write_bytes fuel p bs (with_pipe p (put b (k.pipes p)) k)
    if room then rest else ok (false, k)

  -- The result is n, or `none` for -1.
  unfoldable pub pipewrite : ℕ → ℕ → List ℕ → Kernel → Run (Option ℕ × Kernel)
  pipewrite fuel p bs k = do
    k ← lock p k
    (done, k) ← write_bytes fuel p bs k
    if not done
        then ok (none, k)
        else do k ← wakeup (nread_of p) k; k ← unlock p k; ok (some (length bs), k)

  -- The waiting loop of piperead, with fuel. On `false` the lock has been released.
  unfoldable pub await_data : ℕ → ℕ → Kernel → Run (Bool × Kernel)
  await_data zero p k = asleep
  await_data (suc fuel) p k =
      let again = (do k ← sleep swtch (nread_of p) p k; await_data fuel p k) in
      let wait_more = (do
        (b, k) ← is_killed k
        if b then (do k ← unlock p k; ok (false, k)) else again) in
      if is_empty (k.pipes p) && not ((k.pipes p).writeopen == 0) then wait_more else ok (true, k)

-- The copying loop of piperead: at most `n` bytes.
unfoldable pub read_bytes : ℕ → Pipe → List ℕ × Pipe
read_bytes zero q = ([], q)
read_bytes (suc n) q =
    let (bs, q') = read_bytes n (advance q) in
    if is_empty q then ([], q) else (q.bytes (q.nread % pipesize) ∷ bs, q')

-- The bytes that are read, or `none` for -1.
unfoldable pub piperead :
    (Kernel → Kernel) → (fuel p n : ℕ) → Kernel → Run (Option (List ℕ) × Kernel)
piperead swtch fuel p n k = do
  k ← lock p k
  (some_data, k) ← await_data swtch fuel p k
  if not some_data then ok (none, k) else do
    let (bs, q) = read_bytes n (k.pipes p)
    k ← wakeup (nwrite_of p) (with_pipe p q k)
    k ← unlock p k
    ok (some bs, k)
