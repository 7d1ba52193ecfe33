-- ===== src/Tests/Calls.antt =====
-- The arguments of system calls at a concrete stack.
use soproyecto.Common.{ℕ, ◌≡◌, ◌↔◌, refl, some, Option, ok, arith, ◌==◌, if◌then◌else◌}
use soproyecto.Proc.Defs.{myproc, deref}
use soproyecto.Tests.Demo.{shell, slot}
use soproyecto.Proc.Defs.{running}
use soproyecto.Machine.{pushcli, popcli}
use soproyecto.Syscall.{argptr, argint, fetchint}
use soproyecto.Syscall.Arguments.{settled_kernel, IsRunning, IsAccepted, argptr_iff}

-- The word 512 as the first argument.
abbrev stack_bytes : ℕ → ℕ
stack_bytes a = if a == 5 then 2 else 0

shell-IsRunning : IsRunning (slot running 2 1 0 0) shell
shell-IsRunning = record {
  calm = record { nested = λ h. absurd (omega arith); room = omega arith };
  here = refl;
}

argptr_iff_example :
    (o : Option ℕ) × (argptr stack_bytes 0 16 shell ≡ ok (o, settled_kernel shell))
    × ((i : ℕ) → (o ≡ some i) ↔ IsAccepted stack_bytes 4096 4 16 i)
argptr_iff_example =
    argptr_iff stack_bytes (slot running 2 1 0 0) shell shell-IsRunning (omega arith) 0 16

-- It is accepted.
accepted_word : argptr stack_bytes 0 16 shell ≡ ok (some 512, settled_kernel shell)
unfolding argptr argint fetchint myproc deref pushcli popcli
accepted_word = refl
