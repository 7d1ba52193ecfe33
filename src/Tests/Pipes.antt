-- ===== src/Tests/Pipes.antt =====
-- Reads, writes and closing of a pipe at concrete states.
use soproyecto.Common.{
  ◌>>=◌, false, ℕ, ◌≤◌, ◌≡◌, ◌≢◌, ◌⊎◌, inl, refl, true, some, List, [], ◌∷◌, ◌++◌, length, ok,
  arith,
}
use soproyecto.Machine.{update}
use soproyecto.Tests.Demo.{shell, family, small_pipe, gives_back}
use soproyecto.Proc.Defs.{Pipe, kfree}
use soproyecto.Proc.Enter.{left}
use soproyecto.Proc.Table.{wakeup1}
use soproyecto.Pipe.{nread_of, nwrite_of, pipeclose, pipewrite, piperead}
use soproyecto.Pipe.Ring.{IsRing, contents}
use soproyecto.Proc.Sched.Section.{MayUse}
use soproyecto.Pipe.Transfer.{pipewrite_lem, piperead_lem}
use soproyecto.Pipe.Closing.{other_end, pipeclose-pipeclose}

shell-MayUse : MayUse 5000 shell.machine
shell-MayUse = record {
  own = record { free = refl; nested = λ h. absurd (omega arith); room = omega arith };
  table = refl;
  apart = omega arith;
  room = omega arith;
}

small_pipe-IsRing : IsRing small_pipe
small_pipe-IsRing = record { read = omega arith; written = omega arith; fits = omega arith }

pipewrite_lem_example :
    (ps : ℕ → Pipe) × (pipewrite (gives_back 1) 1 5000 (65 ∷ 66 ∷ []) shell
      ≡ ok (
        some 2,
        record shell {
          machine = left shell.machine;
          procs = wakeup1 (nread_of 5000) family;
          pipes = ps;
        },
      ))
    × IsRing (ps 5000)
    × (contents (ps 5000) ≡ contents small_pipe ++ (65 ∷ 66 ∷ []))
    × ((a : ℕ) → a ≢ 5000 → ps a ≡ small_pipe)
pipewrite_lem_example =
    pipewrite_lem (gives_back 1) 0 5000 shell shell-MayUse small_pipe-IsRing (65 ∷ 66 ∷ [])
      (omega arith)

piperead_lem_example :
    (bs : List ℕ) × (q : Pipe) × (piperead (gives_back 1) 1 5000 3 shell
      ≡ ok (
        some bs,
        record shell {
          machine = left shell.machine;
          procs = wakeup1 (nwrite_of 5000) family;
          pipes = update (λ _. small_pipe) 5000 q;
        },
      ))
    × IsRing q
    × (contents small_pipe ≡ bs ++ contents q)
    × (length bs ≤ 3)
    × ((length bs ≡ 3) ⊎ (contents q ≡ []))
piperead_lem_example =
    piperead_lem (gives_back 1) 0 5000 shell shell-MayUse small_pipe-IsRing 3 (inl (omega arith))

-- The writer closes first, and the reader then frees the pipe.
pipeclose-pipeclose_example :
    (pipeclose 5000 true shell
      ≡ ok (record shell {
        machine = left shell.machine;
        procs = wakeup1 (other_end true 5000) family;
        pipes = update (λ _. small_pipe) 5000 (record small_pipe { writeopen = 0 });
      }))
    × ((pipeclose 5000 true shell >>= pipeclose 5000 false)
        ≡ ok (record shell {
          machine = left shell.machine;
          procs = wakeup1 (other_end false 5000) (wakeup1 (other_end true 5000) family);
          pipes = update (λ _. small_pipe) 5000 (record small_pipe { readopen = 0; writeopen = 0 });
          calls = kfree 5000 ∷ [];
        }))
pipeclose-pipeclose_example =
    pipeclose-pipeclose 5000 shell true shell-MayUse (omega arith) (omega arith)
