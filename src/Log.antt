-- ===== src/Log.antt =====
-- log.c: the log of the file system. The buffer cache enters by bread, which gives the buffer of a
-- block, and bwrite, which writes it to the disk; a write of a block is whole or is not made.
pub mod Copying
pub mod Recovery
pub mod Stages
pub mod Commit
pub mod Admission
use soproyecto.Common.{
  ℕ, zero, suc, ◌+◌, ◌-◌, ◌*◌, ◌%◌, ◌^◌, Bool, true, false, not, ◌&&◌, ◌||◌, Option, none, some,
  Run, ok, stop, asleep, ◌>>=◌, ◌>>◌, panic_committing, panic_too_big, panic_outside, ◌==◌, ltb,
  leb, if◌then◌else◌,
}
use soproyecto.Machine.{update, initlock, int_neg}
use soproyecto.Proc.Defs.{Store, Log, Kernel, log_lock, lock, unlock}
use soproyecto.Proc.Sched.{sleep, wakeup}

abbrev pub maxopblocks : ℕ
maxopblocks = 10

abbrev pub logsize : ℕ
logsize = 30

-- The data of the buffer of block `b`.
abbrev pub fill : ℕ → (ℕ → ℕ) → Store → Store
fill b d s = record s { cache = update s.cache b d }

-- bwrite
abbrev pub bwrite : ℕ → Store → Store
bwrite b s = if s.power == 0 then s else record s {
  disk = update s.disk b (s.cache b);
  dirty = update s.dirty b false;
  power = s.power - 1;
}

-- `memmove(to->data, from->data, BSIZE); bwrite(to);`
abbrev pub copy_block : (from to : ℕ) → Store → Store
copy_block from to s = bwrite to (fill to (s.cache from) s)

-- The loops over the blocks of the log, from `tail` on.
unfoldable pub copy_blocks : (rounds tail : ℕ) → (from to : ℕ → ℕ) → Store → Store
copy_blocks zero tail from to s = s
copy_blocks (suc n) tail from to s =
    copy_blocks n (tail + 1) from to (copy_block (from tail) (to tail) s)

-- The block of the log for the place `tail`.
abbrev pub log_block : Log → ℕ → ℕ
log_block l tail = l.start + tail + 1

unfoldable pub install_trans : Log → Log
install_trans l = record l { store = copy_blocks l.n 0 (log_block l) l.block l.store }

unfoldable pub write_log : Log → Log
write_log l = record l { store = copy_blocks l.n 0 l.block (log_block l) l.store }

-- The array of block numbers after the loop of read_head.
abbrev pub read_blocks : ℕ → (ℕ → ℕ) → (ℕ → ℕ) → ℕ → ℕ
read_blocks n d block i = if ltb i n then d (i + 1) else block i

unfoldable pub read_head : Log → Log
read_head l =
    let d = l.store.cache l.start in record l { n = d 0; block = read_blocks (d 0) d l.block }

-- The words of the header after the loop of write_head.
abbrev pub header : ℕ → (ℕ → ℕ) → (ℕ → ℕ) → ℕ → ℕ
header n block d w = if w == 0 then n else if leb w n then block (w - 1) else d w

unfoldable pub write_head : Log → Log
write_head l = record l {
  store = bwrite l.start (fill l.start (header l.n l.block (l.store.cache l.start)) l.store);
}

unfoldable pub recover_from_log : Log → Log
recover_from_log l = write_head (record (install_trans (read_head l)) { n = 0 })

-- `logstart` and `nlog` are what readsb gives.
unfoldable pub initlog : (logstart nlog : ℕ) → Kernel → Kernel
initlog logstart nlog k = record k {
  machine = initlock log_lock k.machine;
  log = recover_from_log (record k.log { start = logstart; size = nlog });
}

unfoldable pub commit : Log → Log
commit l =
    let done = write_head (record (install_trans (write_head (write_log l))) { n = 0 }) in
    if ltb 0 l.n then done else l

-- The conditions on which begin_op waits.
abbrev pub must_wait : Log → Bool
must_wait l =
    not (l.committing == 0) || ltb logsize (l.n + (l.outstanding + 1) % 2 ^ 32 * maxopblocks)

-- The loop of begin_op, with fuel for its rounds.
unfoldable pub await_room : (Kernel → Kernel) → ℕ → Kernel → Run Kernel
await_room swtch zero k = asleep
await_room swtch (suc fuel) k =
    let again = (sleep swtch log_lock log_lock k >>= await_room swtch fuel) in
    let enter =
      (unlock log_lock
        (record k { log = record k.log { outstanding = (k.log.outstanding + 1) % 2 ^ 32 } })) in
    if must_wait k.log then again else enter

unfoldable pub begin_op : (Kernel → Kernel) → ℕ → Kernel → Run Kernel
begin_op swtch fuel k = do k ← lock log_lock k; await_room swtch fuel k

-- The rest of end_op after its first critical section.
unfoldable pub finish_op : Bool → Kernel → Run Kernel
finish_op false k = ok k
finish_op true k = do
  k ← lock log_lock (record k { log = commit k.log })
  k ← wakeup log_lock (record k { log = record k.log { committing = 0 } })
  unlock log_lock k

unfoldable pub end_op : Kernel → Run Kernel
unfolding finish_op
end_op k = do
  k ← lock log_lock k
  let l = record k.log { outstanding = (k.log.outstanding + 2 ^ 32 - 1) % 2 ^ 32 }
  if not (l.committing == 0) then stop panic_committing else do
    k ←
        if l.outstanding == 0
        then ok (record k { log = record l { committing = 1 } })
        else wakeup log_lock (record k { log = l })
    k ← unlock log_lock k
    finish_op (l.outstanding == 0) k

-- The loop of log_write: the first place of the block from `i` on, or the end.
unfoldable pub place_of : (rounds i b : ℕ) → (ℕ → ℕ) → ℕ
place_of zero i b block = i
place_of (suc n) i b block =
    let rest = place_of n (i + 1) b block in if block i == b then i else rest

-- The log with the block `b` in it, whose buffer is pinned.
unfoldable pub logged : ℕ → Log → Log
logged b l =
    let i = place_of l.n 0 b l.block in
    record l {
      block = update l.block i b;
      n = if i == l.n then l.n + 1 else l.n;
      store = record l.store { dirty = update l.store.dirty b true };
    }

unfoldable pub log_write : ℕ → Kernel → Run Kernel
log_write b k =
    if leb logsize k.log.n || leb (k.log.size - 1) k.log.n
    then stop panic_too_big
    else if (k.log.outstanding == 0) || int_neg k.log.outstanding
    then stop panic_outside
    else do k ← lock log_lock k; unlock log_lock (record k { log = logged b k.log })
