-- ===== src/Syscall.antt =====
-- syscall.c: the arguments of system calls, and their dispatch. `user` are the bytes of the current
-- address space; a result of -1 is `none`. The message on an unknown call is left out.
pub mod Processes
pub mod Arguments
use soproyecto.Common.{
  ℕ, zero, suc, ◌+◌, ◌-◌, ◌*◌, ◌%◌, ◌^◌, Bool, true, false, ◌&&◌, ◌||◌, not, Option, none, some,
  Run, ok, ◌>>=◌, ◌==◌, ltb, leb, if◌then◌else◌,
}
use soproyecto.Machine.{update, int_neg}
use soproyecto.Proc.Defs.{Kernel, Trapframe, myproc, deref}

-- `*(int*)addr`
abbrev pub word_at : (ℕ → ℕ) → ℕ → ℕ
word_at user a = user a + 2 ^ 8 * user (a + 1) + 2 ^ 16 * user (a + 2) + 2 ^ 24 * user (a + 3)

unfoldable pub fetchint : (ℕ → ℕ) → (addr : ℕ) → Kernel → Run (Option ℕ × Kernel)
fetchint user addr k = do
  (curproc, k) ← myproc k
  r ← deref curproc k
  if leb r.sz addr || ltb r.sz ((addr + 4) % 2 ^ 32)
      then ok (none, k)
      else ok (some (word_at user addr), k)

-- The loop of fetchstr with `left` bytes before the end of memory, after `n` bytes that are not 0.
unfoldable pub scan_string : (ℕ → ℕ) → (left s n : ℕ) → Option ℕ
scan_string user zero s n = none
scan_string user (suc left) s n =
    let rest = scan_string user left (s + 1) (n + 1) in if user s == 0 then some n else rest

-- The length; the string is at `addr`.
unfoldable pub fetchstr : (ℕ → ℕ) → (addr : ℕ) → Kernel → Run (Option ℕ × Kernel)
fetchstr user addr k = do
  (curproc, k) ← myproc k
  r ← deref curproc k
  if leb r.sz addr then ok (none, k) else ok (scan_string user (r.sz - addr) addr 0, k)

unfoldable pub argint : (ℕ → ℕ) → (n : ℕ) → Kernel → Run (Option ℕ × Kernel)
argint user n k = do
  (curproc, k) ← myproc k
  r ← deref curproc k
  fetchint user (((k.frames r.tf).esp + 4 + 4 * n) % 2 ^ 32) k

-- `size < 0 || (uint)i >= sz || (uint)i+size > sz`
abbrev pub bad_range : (sz i size : ℕ) → Bool
bad_range sz i size = int_neg size || leb sz i || ltb sz ((i + size) % 2 ^ 32)

-- The rest of argptr, for the argument `i`.
abbrev pub check_range : (sz size : ℕ) → Option ℕ → Option ℕ
check_range sz size none = none
check_range sz size (some i) = if bad_range sz i size then none else some i

unfoldable pub argptr : (ℕ → ℕ) → (n size : ℕ) → Kernel → Run (Option ℕ × Kernel)
argptr user n size k = do
  (curproc, k) ← myproc k
  (i, k) ← argint user n k
  r ← deref curproc k
  ok (check_range r.sz size i, k)

-- The address and the length.
abbrev pub string_at : (ℕ → ℕ) → Option ℕ × Kernel → Run (Option (ℕ × ℕ) × Kernel)
string_at user (none, k) = ok (none, k)
string_at user (some addr, k) = do
  (n, k) ← fetchstr user addr k
  ok (elim n [ none ↦ none | some len ↦ some (addr, len) ], k)

unfoldable pub argstr : (ℕ → ℕ) → (n : ℕ) → Kernel → Run (Option (ℕ × ℕ) × Kernel)
argstr user n k = argint user n k >>= string_at user

-- `curproc->tf->eax = v`
unfoldable pub set_eax : (p v : ℕ) → Kernel → Run Kernel
set_eax p v k = do
  r ← deref p k
  ok (record k { frames = update k.frames r.tf (record (k.frames r.tf) { eax = v }) })

-- `syscalls[num]` for the numbers of the table, which are 1 to 21.
unfoldable pub syscall : (syscalls : ℕ → Kernel → Run (ℕ × Kernel)) → Kernel → Run Kernel
syscall syscalls k = do
  (curproc, k) ← myproc k
  r ← deref curproc k
  let num = (k.frames r.tf).eax
  if ltb 0 num && ltb num 22
      then (do (v, k) ← syscalls num k; set_eax curproc v k)
      else set_eax curproc (2 ^ 32 - 1) k
