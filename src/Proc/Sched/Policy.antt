-- ===== src/Proc/Sched/Policy.antt =====
-- The policy of the two queues, as a turn of the scheduler's loop carries it out.
use soproyecto.Common.{ℕ, ◌≡◌, ap, ◌∙◌, true, none, some, ok, get_elem?}
use soproyecto.Proc.Defs.{Proc, Kernel}
use soproyecto.Proc.Enter.{left}
use soproyecto.Proc.Table.{find_index, is_ready}
use soproyecto.Proc.Scan.{
  IsFirst, NonePass, find_index-some, find_index_of_pass, find_index_of_none,
}
use soproyecto.Proc.Sched.{scheduler_round}
use soproyecto.Proc.Sched.Round.{
  dispatched, regained, ran, ran_or, KeepsMachine, IsIdle, opened, listening, scheduler_round-ran,
}

-- The kernel after a turn whose last phase left `k'`.
abbrev pub turned : Kernel → Kernel → Kernel
turned k k' = record k' { machine = left (listening k.machine) }

ran-some :
    (q : ℕ) (swtch : Kernel → Kernel) (k : Kernel) (i : ℕ)
    → find_index (is_ready q) k.procs ≡ some i
    → ran q swtch k ≡ regained (swtch (dispatched i k))
ran-some q swtch k i e = ap (ran_or k swtch) e

ran-none :
    (q : ℕ) (swtch : Kernel → Kernel) (k : Kernel)
    → find_index (is_ready q) k.procs ≡ none
    → ran q swtch k ≡ k
ran-none q swtch k e = ap (ran_or k swtch) e

module _ (first second : Kernel → Kernel) (k : Kernel) (keeps : KeepsMachine first)
    (keeps' : KeepsMachine second) (idle : IsIdle k) where
  turn : scheduler_round first second k ≡ ok (turned k (ran 1 second (ran 0 first (opened k))))
  turn = scheduler_round-ran first second k keeps keeps' idle

  -- A ready process in the high queue: the first of them in table order gets the CPU, before any
  -- process of the low queue, and the low queue is looked at in what it leaves.
  pub high_queue-IsFirst :
      (i : ℕ) (p : Proc)
      → get_elem? k.procs i ≡ some p
      → is_ready 0 p ≡ true
      → (j : ℕ) × IsFirst (is_ready 0) k.procs j
        × (scheduler_round first second k
            ≡ ok (turned k (ran 1 second (regained (first (dispatched j (opened k)))))))
  high_queue-IsFirst i p at ready =
      let (j, e) = find_index_of_pass (is_ready 0) k.procs i p at ready in
      (
        j,
        find_index-some (is_ready 0) k.procs j e,
        turn ∙ ap (λ s. ok (turned k (ran 1 second s))) (ran-some 0 first (opened k) j e),
      )

  -- After the process of slot `i` of the high queue has run, the same turn goes on: if the low
  -- queue then has a ready process, its first one runs too, whatever the high queue holds by then.
  pub low_queue_follows :
      (i j : ℕ) (p : Proc)
      → find_index (is_ready 0) k.procs ≡ some i
      → get_elem? (first (dispatched i (opened k))).procs j ≡ some p
      → is_ready 1 p ≡ true
      → (l : ℕ) × IsFirst (is_ready 1) (first (dispatched i (opened k))).procs l
        × (scheduler_round first second k
            ≡ ok (
                turned k
                  (regained (second (dispatched l (regained (first (dispatched i (opened k)))))))))
  low_queue_follows i j p high at ready =
      let after = regained (first (dispatched i (opened k))) in
      let (l, e) = find_index_of_pass (is_ready 1) after.procs j p at ready in
      (
        l,
        find_index-some (is_ready 1) after.procs l e,
        turn
            ∙ ap (λ s. ok (turned k (ran 1 second s))) (ran-some 0 first (opened k) i high)
            ∙ ap (λ s. ok (turned k s)) (ran-some 1 second after l e),
      )

  -- With no ready process in the high queue, the first ready one of the low queue runs.
  pub low_queue_alone :
      (i : ℕ) (p : Proc)
      → NonePass (is_ready 0) k.procs
      → get_elem? k.procs i ≡ some p
      → is_ready 1 p ≡ true
      → (j : ℕ) × IsFirst (is_ready 1) k.procs j
        × (scheduler_round first second k
            ≡ ok (turned k (regained (second (dispatched j (opened k))))))
  low_queue_alone i p empty at ready =
      let (j, e) = find_index_of_pass (is_ready 1) k.procs i p at ready in
      (
        j,
        find_index-some (is_ready 1) k.procs j e,
        turn
            ∙ ap (λ s. ok (turned k (ran 1 second s)))
                (ran-none 0 first (opened k) (find_index_of_none (is_ready 0) k.procs empty))
            ∙ ap (λ s. ok (turned k s)) (ran-some 1 second (opened k) j e),
      )

  -- With no ready process in either queue, a turn changes nothing but that interrupts are on.
  pub no_ready_idles :
      NonePass (is_ready 0) k.procs
      → NonePass (is_ready 1) k.procs
      → scheduler_round first second k ≡ ok (turned k k)
  no_ready_idles high low =
      turn
      ∙ ap (λ s. ok (turned k (ran 1 second s)))
          (ran-none 0 first (opened k) (find_index_of_none (is_ready 0) k.procs high))
      ∙ ap (λ s. ok (turned k s))
          (ran-none 1 second (opened k) (find_index_of_none (is_ready 1) k.procs low))
