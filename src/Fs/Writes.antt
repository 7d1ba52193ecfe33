-- ===== src/Fs/Writes.antt =====
-- The writes of blocks in fs.c, by log_write.
use soproyecto.Common.{
  ℕ, suc, ◌+◌, ◌-◌, ◌^◌, ◌<◌, ◌≤◌, ◌≡◌, ◌≢◌, refl, false, Bool-cases, inl, inr, ok, ◌==◌, leb,
  arith,
}
use soproyecto.Machine.Locks.{MayLock}
use soproyecto.Proc.Defs.{Kernel, log_lock}
use soproyecto.Proc.Enter.{entered, left, lock-entered, unlock-entered, MayLock-left}
use soproyecto.Log.{place_of, logsize, logged, log_write}
use soproyecto.Fs.{Fs, with_kernel, with_block, write_block}

-- log_write has room for `m` blocks, within an operation of the file system, and may take the lock
-- of the log.
pub record CanLog (m : ℕ) (k : Kernel) : Type 0 where
  pub may : MayLock log_lock k.machine
  pub room : k.log.n + m ≤ logsize
  pub fits : k.log.n + m < k.log.size
  pub begun : k.log.outstanding ≢ 0
  pub count : k.log.outstanding < 2 ^ 31

-- The kernel after a block has been changed and logged.
abbrev pub wrote : (b : ℕ) → (ℕ → ℕ) → Kernel → Kernel
wrote b bytes k = record (with_block b bytes k) {
  machine = left k.machine;
  log = logged b (with_block b bytes k).log;
}

pub write_block_lem :
    (b : ℕ) (bytes : ℕ → ℕ) (w : Fs)
    → CanLog 1 w.kernel
    → write_block b bytes w ≡ ok (with_kernel (wrote b bytes w.kernel) w)
unfolding write_block log_write
write_block_lem b bytes w can =
    let k = with_block b bytes w.kernel in
    let full : leb logsize k.log.n ≡ false = ground (arith, can.room) in
    let over : leb (k.log.size - 1) k.log.n ≡ false = ground (arith, can.fits) in
    let some_op : (k.log.outstanding == 0) ≡ false = ground (arith, can.begun) in
    let small : leb (2 ^ 31) k.log.outstanding ≡ false = ground (arith, can.count) in
    rw (full, over, some_op, small)
      (rw (lock-entered log_lock k can.may) (
        rw
          (unlock-entered log_lock k.machine
            (record k { machine = entered log_lock k.machine; log = logged b k.log }) can.may refl)
          refl))

pub CanLog-mono : (m n : ℕ) (k : Kernel) → m ≤ n → CanLog n k → CanLog m k
CanLog-mono m n k le can = record {
  may = can.may;
  room = omega (arith, can.room, le);
  fits = omega (arith, can.fits, le);
  begun = can.begun;
  count = can.count;
}

-- A write takes the room of one block at most.
pub CanLog-wrote :
    (m b : ℕ) (bytes : ℕ → ℕ) (k : Kernel) → CanLog (suc m) k → CanLog m (wrote b bytes k)
unfolding logged
CanLog-wrote m b bytes k can =
    let l = (with_block b bytes k).log in
    let longer : (logged b l).n ≤ k.log.n + 1 =
      elim (Bool-cases (place_of l.n 0 b l.block == l.n)) [
        | inl e ↦ rw e (omega arith)
        | inr e ↦ rw e (omega arith)
      ] in
    record {
      may = MayLock-left log_lock k.machine can.may;
      room = omega (arith, can.room, longer);
      fits = omega (arith, can.fits, longer);
      begun = can.begun;
      count = can.count;
    }
