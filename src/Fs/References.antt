-- ===== src/Fs/References.antt =====
-- iget: which entry it gives, and that no inode comes to be in two entries.
use soproyecto.Common.{
  ℕ, ◌<◌, ◌≡◌, refl, sym, ap, ◌∙◌, subst, true, false, Bool-cases, inl, inr, none, Run, ok, stop,
  panic_iget, ◌==◌, arith,
}
use soproyecto.Machine.{update}
use soproyecto.Machine.Locks.{MayLock}
use soproyecto.Proc.Enter.{entered, left, lock-entered, unlock-entered}
use soproyecto.Fs.{Inode, Fs}
use soproyecto.Fs.Inodes.{
  icache_lock, ninode, Entry, cached, unused, full, holds, find_entry, lock_icache, unlock_icache,
  referenced, take_entry, iget,
}
use soproyecto.Fs.Search.{
  NoneIn, is_free, HoldsOnce, IsHolder, IsFree, searched_hit, searched_free, searched_full,
  find-Searched,
}

-- A further reference to an entry that has one does not change what entries hold.
holds-referenced :
    (dev inum : ℕ) (n : Inode) (d i : ℕ)
    → holds dev inum n ≡ true
    → holds d i (referenced n) ≡ true
    → holds d i n ≡ true
holds-referenced dev inum n d i was now = ground (arith, was, now)

-- What an entry holds that has just been taken.
holds-taken :
    (n : Inode) (dev inum d i : ℕ)
    → holds d i (record n { dev = dev; inum = inum; ref = 1; valid = 0 }) ≡ true
    → (dev ≡ d) × (inum ≡ i)
holds-taken n dev inum d i now = (ground (arith, now), ground (arith, now))

update_same :
    {A : Type 0} (f : ℕ → A) (j : ℕ) (v : A) (a : ℕ) → (j == a) ≡ true → update f j v a ≡ v
update_same f j v a e = rw e refl

update_other :
    {A : Type 0} (f : ℕ → A) (j : ℕ) (v : A) (a : ℕ) → (j == a) ≡ false → update f j v a ≡ f a
update_other f j v a e = rw e refl

referenced-HoldsOnce :
    (f : ℕ → Inode) (dev inum j : ℕ)
    → holds dev inum (f j) ≡ true
    → HoldsOnce f
    → HoldsOnce (update f j (referenced (f j)))
referenced-HoldsOnce f dev inum j was once a b d i la lb ha hb =
    let back : (c : ℕ)
        → holds d i (update f j (referenced (f j)) c) ≡ true
        → holds d i (f c) ≡ true =
      λ c h. elim (Bool-cases (j == c)) [
        | inl e ↦
            subst (λ v. holds d i (f v) ≡ true) (ground (arith, e))
              (holds-referenced dev inum (f j) d i was
                (ap (holds d i) (sym (update_same f j (referenced (f j)) c e)) ∙ h))
        | inr e ↦ ap (holds d i) (sym (update_other f j (referenced (f j)) c e)) ∙ h
      ] in
    once a b d i la lb (back a ha) (back b hb)

taken-HoldsOnce :
    (f : ℕ → Inode) (dev inum j : ℕ)
    → NoneIn (holds dev inum) f 0 ninode
    → HoldsOnce f
    → HoldsOnce (update f j (record (f j) { dev = dev; inum = inum; ref = 1; valid = 0 }))
taken-HoldsOnce f dev inum j off once a b d i la lb ha hb =
    let v = record (f j) { dev = dev; inum = inum; ref = 1; valid = 0 } in
    let mine : (c : ℕ)
        → (j == c) ≡ true
        → holds d i (update f j v c) ≡ true
        → (dev ≡ d) × (inum ≡ i) =
      λ c e h. holds-taken (f j) dev inum d i (ap (holds d i) (sym (update_same f j v c e)) ∙ h) in
    let theirs : (c : ℕ)
        → (j == c) ≡ false
        → holds d i (update f j v c) ≡ true
        → holds d i (f c) ≡ true =
      λ c e h. ap (holds d i) (sym (update_other f j v c e)) ∙ h in
    let apart : (c e : ℕ)
        → c < ninode
        → (j == e) ≡ true
        → (j == c) ≡ false
        → holds d i (update f j v e) ≡ true
        → holds d i (update f j v c) ≡ true
        → ⊥ =
      λ c e lc me other he hc.
        let k = mine e me he in
        let gone : holds d i (f c) ≡ false =
          subst (λ x. holds x i (f c) ≡ false) k.0
            (subst (λ x. holds dev x (f c) ≡ false) k.1
              (off c (omega arith) (omega (arith, lc)))) in
        ground (arith, gone, theirs c other hc) in
    elim (Bool-cases (j == a)) [
      | inl ea ↦ elim (Bool-cases (j == b)) [
        | inl eb ↦ ground (arith, ea, eb)
        | inr ob ↦ absurd (apart b a lb ea ob ha hb)
      ]
      | inr oa ↦ elim (Bool-cases (j == b)) [
        | inl eb ↦ absurd (apart a b la eb oa hb ha)
        | inr ob ↦ once a b d i la lb (theirs a oa ha) (theirs b ob hb)
      ]
    ]

module _ (w : Fs) (dev inum : ℕ) where
  -- The state after iget, with `v` in the entry `j`.
  abbrev pub with_entry : ℕ → Inode → Fs
  with_entry j v = record {
    kernel = record w.kernel { machine = left w.kernel.machine };
    inodes = update w.inodes j v;
  }

  -- iget gives an entry, or panics when none is free.
  pub data Got (r : Run (ℕ × Fs)) : Type 0 where
    shared :
        (j : ℕ)
        → IsHolder w.inodes dev inum 0 ninode j
        → r ≡ ok (j, with_entry j (referenced (w.inodes j)))
        → HoldsOnce (with_entry j (referenced (w.inodes j))).inodes
        → Got r
    fresh :
        (j : ℕ)
        → NoneIn (holds dev inum) w.inodes 0 ninode
        → IsFree w.inodes dev inum 0 ninode j
        → r
          ≡ ok
              (j, with_entry j (record (w.inodes j) { dev = dev; inum = inum; ref = 1; valid = 0 }))
        → HoldsOnce
            (with_entry j
              (record (w.inodes j) { dev = dev; inum = inum; ref = 1; valid = 0 })).inodes
        → Got r
    refused :
        NoneIn (holds dev inum) w.inodes 0 ninode
        → NoneIn is_free w.inodes 0 ninode
        → r ≡ stop panic_iget
        → Got r

  abbrev inside : Fs
  inside = record w { kernel = record w.kernel { machine = entered icache_lock w.kernel.machine } }

  iget-entered :
      MayLock icache_lock w.kernel.machine
      → (e : Entry) → find_entry ninode 0 dev inum none w.inodes ≡ e
      → iget dev inum w ≡ take_entry dev inum e inside
  unfolding iget lock_icache
  iget-entered may e found =
      rw (lock-entered icache_lock w.kernel may) (ap (λ e. take_entry dev inum e inside) found)

  take_cached :
      MayLock icache_lock w.kernel.machine
      → (j : ℕ)
      → take_entry dev inum (cached j) inside ≡ ok (j, with_entry j (referenced (w.inodes j)))
  unfolding take_entry unlock_icache
  take_cached may j = rw (unlock-entered icache_lock w.kernel.machine inside.kernel may refl) refl

  take_unused :
      MayLock icache_lock w.kernel.machine
      → (j : ℕ)
      → take_entry dev inum (unused j) inside
        ≡ ok (j, with_entry j (record (w.inodes j) { dev = dev; inum = inum; ref = 1; valid = 0 }))
  unfolding take_entry unlock_icache
  take_unused may j = rw (unlock-entered icache_lock w.kernel.machine inside.kernel may refl) refl

  take_full : take_entry dev inum full inside ≡ stop panic_iget
  unfolding take_entry
  take_full = refl

  -- iget, when the lock of the cache is free and no inode is in two entries with a reference: the
  -- entry that holds the inode gets one reference more; else the first entry without a reference
  -- is taken for it, not yet read; else it panics, all entries being in use. No inode comes to be
  -- in two entries.
  pub iget-Got : MayLock icache_lock w.kernel.machine → HoldsOnce w.inodes → Got (iget dev inum w)
  iget-Got may once = elim (find-Searched w.inodes dev inum ninode 0) [
    | searched_hit j at r ↦
        shared j at (iget-entered may (cached j) r ∙ take_cached may j)
          (referenced-HoldsOnce w.inodes dev inum j at.held once)
    | searched_free j off at r ↦
        fresh j off at (iget-entered may (unused j) r ∙ take_unused may j)
          (taken-HoldsOnce w.inodes dev inum j off once)
    | searched_full off none_free r ↦ refused off none_free (iget-entered may full r ∙ take_full)
  ]
