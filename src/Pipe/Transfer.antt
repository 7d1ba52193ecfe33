-- ===== src/Pipe/Transfer.antt =====
-- Reads and writes of a pipe as operations on a queue of bytes, where nobody has to wait.
use soproyecto.Common.{
  ℕ, suc, ◌+◌, ◌<◌, ◌≤◌, ◌≡◌, ◌≢◌, ◌⊎◌, refl, sym, subst, ap, ◌∙◌, true, false, some, List, [], ◌∷◌,
  ◌++◌, length, ok, arith,
}
use soproyecto.Machine.{update, update_self}
use soproyecto.Proc.Defs.{Pipe, Kernel}
use soproyecto.Proc.Enter.{entered, left, lock-entered}
use soproyecto.Proc.Table.{wakeup1}
use soproyecto.Proc.Sched.Section.{MayUse, finish}
use soproyecto.Pipe.{
  nread_of, nwrite_of, with_pipe, is_full, put, write_bytes, await_room, pipewrite, await_data,
  piperead,
}
use soproyecto.Pipe.Ring.{
  count, contents, IsRing, puts, IsRing-put, count-put, contents-puts, read_bytes_lem,
}

not_full : (q : Pipe) → IsRing q → count q < 512 → is_full q ≡ false
not_full q ring room = ground (arith, ring.read, ring.written)

await_room_lem :
    (swtch : Kernel → Kernel) (fuel p : ℕ) (k : Kernel)
    → IsRing (k.pipes p)
    → count (k.pipes p) < 512
    → await_room swtch (suc fuel) p k ≡ ok (true, k)
unfolding await_room
await_room_lem swtch fuel p k ring room = rw (not_full (k.pipes p) ring room) refl

await_data_lem :
    (swtch : Kernel → Kernel) (fuel p : ℕ) (k : Kernel)
    → ((k.pipes p).nread ≢ (k.pipes p).nwrite) ⊎ ((k.pipes p).writeopen ≡ 0)
    → await_data swtch (suc fuel) p k ≡ ok (true, k)
unfolding await_data
await_data_lem swtch fuel p k ready = ground (arith, ready)

update_ne : (ps : ℕ → Pipe) (p a : ℕ) (q : Pipe) → a ≢ p → update ps p q a ≡ ps a
update_ne ps p a q apart = ground (arith, apart)

write_bytes_lem :
    (swtch : Kernel → Kernel) (fuel p : ℕ) (bs : List ℕ) (k : Kernel)
    → IsRing (k.pipes p)
    → count (k.pipes p) + length bs ≤ 512
    → (ps : ℕ → Pipe) × (write_bytes swtch (suc fuel) p bs k ≡ ok (true, record k { pipes = ps }))
      × (ps p ≡ puts bs (k.pipes p))
      × ((a : ℕ) → a ≢ p → ps a ≡ k.pipes a)
unfolding write_bytes
write_bytes_lem swtch fuel p [] k ring room = (k.pipes, refl, refl, λ _ _. refl)
write_bytes_lem swtch fuel p (b ∷ bs) k ring room =
    let q = k.pipes p in
    let here : count q < 512 = omega arith in
    let k₁ = with_pipe p (put b q) k in
    let same = update_self k.pipes p (put b q) in
    let room' : count (k₁.pipes p) + length bs ≤ 512 =
      subst (λ s. count s + length bs ≤ 512) (sym same) (omega (arith, count-put b q ring here)) in
    let (ps, run, at, others) =
      write_bytes_lem swtch fuel p bs k₁ (subst IsRing (sym same) (IsRing-put b q ring here))
        room' in
    (
      ps,
      rw (await_room_lem swtch fuel p k ring here) run,
      at ∙ ap (puts bs) same,
      λ a apart. others a apart ∙ update_ne k.pipes p a (put b q) apart,
    )

module _ (swtch : Kernel → Kernel) (fuel p : ℕ) (k : Kernel) (may : MayUse p k.machine)
    (ring : IsRing (k.pipes p)) where
  -- A write of bytes for which there is room: all of them go to the end of the queue, the readers
  -- are woken, the result is their number, and no other pipe changes.
  pub pipewrite_lem :
      (bs : List ℕ)
      → count (k.pipes p) + length bs ≤ 512
      → (ps : ℕ → Pipe) × (pipewrite swtch (suc fuel) p bs k
          ≡ ok (
            some (length bs),
            record k { machine = left k.machine; procs = wakeup1 (nread_of p) k.procs; pipes = ps },
          ))
        × IsRing (ps p)
        × (contents (ps p) ≡ contents (k.pipes p) ++ bs)
        × ((a : ℕ) → a ≢ p → ps a ≡ k.pipes a)
  unfolding pipewrite
  pipewrite_lem bs room =
      let (ps, run, at, others) =
        write_bytes_lem swtch fuel p bs (record k { machine = entered p k.machine }) ring room in
      let (ring', queue) = contents-puts bs (k.pipes p) ring room in
      (
        ps,
        rw (lock-entered p k may.own) (
            rw run (
              finish p (nread_of p) k.machine (record k { pipes = ps })
                (λ s. ok (some (length bs), s)) may)),
        subst IsRing (sym at) ring',
        ap contents at ∙ queue,
        others,
      )

  -- A read from a pipe that has bytes or no writer: it takes bytes from the front of the queue, as
  -- many as are asked for or else all, wakes the writers, and leaves the rest.
  pub piperead_lem :
      (n : ℕ)
      → ((k.pipes p).nread ≢ (k.pipes p).nwrite) ⊎ ((k.pipes p).writeopen ≡ 0)
      → (bs : List ℕ) × (q : Pipe) × (piperead swtch (suc fuel) p n k
          ≡ ok (
            some bs,
            record k {
              machine = left k.machine;
              procs = wakeup1 (nwrite_of p) k.procs;
              pipes = update k.pipes p q;
            },
          ))
        × IsRing q
        × (contents (k.pipes p) ≡ bs ++ contents q)
        × (length bs ≤ n)
        × ((length bs ≡ n) ⊎ (contents q ≡ []))
  unfolding piperead
  piperead_lem n ready =
      let (bs, q, run, ring', same, short, full) = read_bytes_lem n (k.pipes p) ring in
      (
        bs,
        q,
        rw (lock-entered p k may.own) (
            rw (await_data_lem swtch fuel p (record k { machine = entered p k.machine }) ready) (
              rw run
                (finish p (nwrite_of p) k.machine (with_pipe p q k) (λ s. ok (some bs, s)) may))),
        ring',
        same,
        short,
        full,
      )
