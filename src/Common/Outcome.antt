-- ===== src/Common/Outcome.antt =====
-- What a run of kernel code gives, with its sequencing.

-- The messages of `panic`.
pub data Panic : Type 0 where
  panic_mycpu panic_popcli_interruptible panic_popcli panic_acquire panic_release : Panic
  panic_sched_lock panic_sched_locks panic_sched_running panic_sched_interruptible : Panic
  panic_sleep panic_sleep_without_lk panic_init_exiting panic_kfree panic_trap : Panic
  panic_remap panic_vm panic_freevm panic_uvm panic_userinit panic_committing panic_too_big
        panic_outside :
      Panic
  panic_bget panic_bwrite panic_brelse : Panic
  panic_balloc panic_bfree panic_ialloc panic_iget panic_ilock panic_iunlock panic_bmap : Panic
  panic_ilock_type panic_dirlookup panic_dirlookup_read panic_dirlink_read panic_dirlink : Panic
  panic_isdirempty panic_unlink panic_unlink_writei panic_create_dots panic_create : Panic
  panic_filedup panic_fileclose panic_fileread panic_filewrite panic_short_filewrite : Panic

-- `stop` is a panic; `spin`, a wait for a lock that another CPU holds; `fault`, an access through a
-- null or wild pointer; `asleep`, a sleep that has not ended when the given schedule does.
pub data Run (A : Type 0) : Type 0 where
  ok : A → Run A
  stop : Panic → Run A
  spin : Run A
  fault : Run A
  asleep : Run A

infixl 5 ◌>>=◌
abbrev pub ◌>>=◌ : {A B : Type 0} → Run A → (A → Run B) → Run B
ok a >>= f = f a
stop p >>= f = stop p
spin >>= f = spin
fault >>= f = fault
asleep >>= f = asleep

infixl 5 ◌>>◌
abbrev pub ◌>>◌ : {A B : Type 0} → Run A → Run B → Run B
m >> k = m >>= λ _. k
