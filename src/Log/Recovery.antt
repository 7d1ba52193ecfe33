-- ===== src/Log/Recovery.antt =====
-- A crash at any write of a commit, and the recovery from it.
use soproyecto.Common.{
  ℕ, zero, suc, ◌+◌, ◌<◌, ◌≤◌, ◌≡◌, ◌≢◌, ◌⊎◌, inl, inr, sym, subst, ap, true, ◌==◌, Bool-cases,
  arith,
}
use soproyecto.Proc.Defs.{Store, Log}
use soproyecto.Log.{
  fill, bwrite, copy_blocks, log_block, install_trans, read_blocks, read_head, header, write_head,
  recover_from_log,
}
use soproyecto.Log.Copying.{IsPlan, Copied, copy_blocks-disk, copy_blocks-all}

-- The machine after a crash: the disk is left, with power for `p` writes; memory is lost.
abbrev pub rebooted : (junk : ℕ → ℕ) → (p : ℕ) → Log → Log
rebooted junk p l = record l {
  outstanding = 0;
  committing = 0;
  n = 0;
  block = junk;
  store = record l.store { cache = l.store.disk; power = p };
}

-- The block is neither the header nor one of the `n` blocks of the log in use.
abbrev pub Outside : (start n b : ℕ) → Type 0
Outside start n b = (b < start) ⊎ (start + n < b)

-- The block `b` has the content `d` when the blocks `block i` have been written from `new`.
abbrev pub Installed : (n : ℕ) (block : ℕ → ℕ) (old new : ℕ → ℕ → ℕ) (b : ℕ) (d : ℕ → ℕ) → Type 0
Installed n block old new b d =
    ((i : ℕ) × (i < n) × (block i ≡ b) × (d ≡ new b))
    ⊎ (((i : ℕ) → i < n → block i ≢ b) × (d ≡ old b))

same_place : (i n : ℕ) → (i == n) ≡ true → i ≡ n
same_place i n e = ground (arith, e)

-- Some place of the log has the block, or none has.
search_block :
    (n : ℕ) (block : ℕ → ℕ) (b : ℕ)
    → ((i : ℕ) × (i < n) × (block i ≡ b)) ⊎ ((i : ℕ) → i < n → block i ≢ b)
search_block zero block b = inr (λ i h e. absurd (omega arith))
search_block (suc n) block b = elim (search_block n block b) [
  | inl (i, h, e) ↦ inl (i, omega arith, e)
  | inr absent ↦ elim (Bool-cases (block n == b)) [
    | inl e ↦ inl (n, omega arith, ground (arith, e))
    | inr e ↦ inr (λ i h f. elim (Bool-cases (i == n)) [
      | inl at ↦ ground (arith, e, at, f, ap block (same_place i n at))
      | inr before ↦ absent i (ground (arith, before, h)) f
    ])
  ]
]

pub bwrite-ne : (a b : ℕ) (s : Store) → a ≢ b → (bwrite a s).disk b ≡ s.disk b
bwrite-ne a b s ne = ground (arith, ne)

pub Installed-Copied :
    (n : ℕ) (block : ℕ → ℕ) (old d new : ℕ → ℕ → ℕ) (b : ℕ)
    → ((i : ℕ) → i < n → d (block i) ≡ new (block i))
    → Copied block new n 0 old d b
    → Installed n block old new b (d b)
Installed-Copied n block old d new b all copied = elim (search_block n block b) [
  | inl (i, h, e) ↦ inl (i, h, e, subst (λ c. d c ≡ new c) e (all i h))
  | inr absent ↦ elim copied [
    | inl e ↦ inr (absent, e)
    | inr (i, among, e, f) ↦ absurd (absent i (omega arith) e)
  ]
]

-- The blocks of the log hold what is to be installed.
pub IsPlan-install :
    (l : Log) (block : ℕ → ℕ) (new : ℕ → ℕ → ℕ) (n m : ℕ) (s : Store)
    → n ≤ m
    → ((i : ℕ) → i < n → Outside l.start m (block i) × (s.cache (log_block l i) ≡ new (block i)))
    → IsPlan (log_block l) block new n 0 s
IsPlan-install l block new n m s small given = record {
  given = λ i h. (given i (omega arith)).1;
  apart = λ i j h h' e. ground (arith, (given j (omega arith)).0, e, small, h.1);
}

-- What a recovery does, with the words of the header on the disk.
pub recovered :
    (junk : ℕ → ℕ) (p : ℕ) (l : Log) (new : ℕ → ℕ → ℕ) (m : ℕ)
    → let c = l.store.disk l.start 0 in
      let block = read_blocks c (l.store.disk l.start) junk in
      c ≤ m
      → c ≤ p
      → ((i : ℕ)
          → i < c
          → Outside l.start m (block i) × (l.store.disk (log_block l i) ≡ new (block i)))
      → (b : ℕ) → Outside l.start m b
      → Installed c block l.store.disk new b ((recover_from_log (rebooted junk p l)).store.disk b)
unfolding recover_from_log write_head install_trans read_head
recovered junk p l new m small enough given b out =
    let c = l.store.disk l.start 0 in
    let block = read_blocks c (l.store.disk l.start) junk in
    let s = record l.store { cache = l.store.disk; power = p } in
    let plan = IsPlan-install l block new c m s small given in
    let s' = copy_blocks c 0 (log_block l) block s in
    subst (Installed c block l.store.disk new b)
      (sym (
        bwrite-ne l.start b (fill l.start (header 0 block (s'.cache l.start)) s')
          (λ e. ground (arith, out, e))))
      (Installed-Copied c block l.store.disk s'.disk new b
        (λ i h. copy_blocks-all (log_block l) block new c 0 s plan enough i (omega arith))
        (copy_blocks-disk (log_block l) block new c 0 s plan b))

-- With no transaction in the header a recovery changes nothing outside the log.
pub recovered_clean :
    (junk : ℕ → ℕ) (p : ℕ) (l : Log) (m : ℕ)
    → l.store.disk l.start 0 ≡ 0
    → (b : ℕ) → Outside l.start m b
    → (recover_from_log (rebooted junk p l)).store.disk b ≡ l.store.disk b
recovered_clean junk p l m clean b out =
    elim (recovered junk p l l.store.disk m (omega (arith, clean)) (omega (arith, clean))
      (λ i h. absurd (omega (arith, clean))) b out) [
        | inl (i, h, _, _) ↦ absurd (omega (arith, clean))
        | inr (_, e) ↦ e
      ]
