-- ===== src/Syscall/Arguments.antt =====
-- fetchint, argint and argptr where the running process has a slot.
use soproyecto.Common.{
  ℕ, ◌+◌, ◌*◌, ◌%◌, ◌^◌, ◌<◌, ◌≤◌, ◌≡◌, ◌↔◌, refl, ap, sym, subst, ◌∙◌, false, Bool, Bool-cases,
  inl, inr, Option, none, some, ok, ◌||◌, leb, ltb, if◌then◌else◌, arith,
}
use soproyecto.Machine.{Cpu}
use soproyecto.Machine.Locks.{settled}
use soproyecto.Proc.Defs.{Proc, Kernel, proc_at, with_cpu}
use soproyecto.Proc.Enter.{IsCalm, myproc_lem, deref_lem, settled-settled}
use soproyecto.Syscall.{word_at, fetchint, argint, argptr, bad_range, check_range}

-- A word lies before the end of memory, so far as fetchint tests.
abbrev pub outside : (sz addr : ℕ) → Bool
outside sz addr = leb sz addr || ltb sz ((addr + 4) % 2 ^ 32)

-- What argptr is to accept: the argument's word at `arg` and the `size` bytes from its value `i` on
-- lie in the memory of the process.
pub record IsAccepted (user : ℕ → ℕ) (sz arg size i : ℕ) : Type 0 where
  pub word_inside : arg + 4 ≤ sz
  pub value : word_at user arg ≡ i
  pub start_inside : i < sz
  pub inside : i + size ≤ sz
  pub positive : size < 2 ^ 31

IsCalm-settled : (c : Cpu) → IsCalm c → IsCalm (settled c)
IsCalm-settled c calm = record { nested = calm.nested; room = calm.room }

abbrev pub settled_kernel : Kernel → Kernel
settled_kernel k = with_cpu (settled k.machine.cpu) k

-- What fetchint reads.
abbrev fetched : (ℕ → ℕ) → (sz addr : ℕ) → Option ℕ
fetched user sz addr = if outside sz addr then none else some (word_at user addr)

-- Where the argument `n` of a system call stands.
abbrev pub arg_at : Kernel → Proc → (n : ℕ) → ℕ
arg_at k r n = ((k.frames r.tf).esp + 4 + 4 * n) % 2 ^ 32

-- The running process is `r`.
pub record IsRunning (r : Proc) (k : Kernel) : Type 0 where
  pub calm : IsCalm k.machine.cpu
  pub here : proc_at k.procs k.machine.cpu.proc ≡ some r

settled-IsRunning : (r : Proc) (k : Kernel) → IsRunning r k → IsRunning r (settled_kernel k)
settled-IsRunning r k run = record { calm = IsCalm-settled k.machine.cpu run.calm; here = run.here }

fetchint_lem :
    (user : ℕ → ℕ) (r : Proc) (k : Kernel)
    → IsRunning r k
    → (addr : ℕ) → fetchint user addr k ≡ ok (fetched user r.sz addr, settled_kernel k)
unfolding fetchint
fetchint_lem user r k run addr = rw (myproc_lem k run.calm) (
    rw (deref_lem k.machine.cpu.proc (settled_kernel k) run.here)
      (elim (Bool-cases (outside r.sz addr)) [ inl e ↦ rw e refl | inr e ↦ rw e refl ]))

settled_twice : (k : Kernel) → settled_kernel (settled_kernel k) ≡ settled_kernel k
settled_twice k = λ i. with_cpu (settled-settled k.machine.cpu i) k

argint_lem :
    (user : ℕ → ℕ) (r : Proc) (k : Kernel)
    → IsRunning r k
    → (n : ℕ) → argint user n k ≡ ok (fetched user r.sz (arg_at k r n), settled_kernel k)
unfolding argint
argint_lem user r k run n = rw (myproc_lem k run.calm) (
    rw (deref_lem k.machine.cpu.proc (settled_kernel k) run.here) (
      fetchint_lem user r (settled_kernel k) (settled-IsRunning r k run) (arg_at k r n)
      ∙ ap (λ x. ok (fetched user r.sz (arg_at k r n), x)) (settled_twice k)))

argptr-checked :
    (user : ℕ → ℕ) (r : Proc) (k : Kernel)
    → IsRunning r k
    → (n size : ℕ)
    → argptr user n size k
      ≡ ok (check_range r.sz size (fetched user r.sz (arg_at k r n)), settled_kernel k)
unfolding argptr
argptr-checked user r k run n size = rw (myproc_lem k run.calm) (
    rw (argint_lem user r (settled_kernel k) (settled-IsRunning r k run) n) (
      rw (deref_lem k.machine.cpu.proc (settled_kernel (settled_kernel k)) run.here) (
        ap (λ x. ok (check_range r.sz size (fetched user r.sz (arg_at k r n)), x))
          (settled_twice k))))

-- The tests are exact where the memory of a process ends at KERNBASE or below.
outside-false : (sz arg : ℕ) → sz ≤ 2 ^ 31 → outside sz arg ≡ false → arg + 4 ≤ sz
outside-false sz arg top e = ground (arith, e)

outside-true : (sz arg : ℕ) → sz ≤ 2 ^ 31 → arg + 4 ≤ sz → outside sz arg ≡ false
outside-true sz arg top h = ground arith

bad_range-false :
    (sz i size : ℕ)
    → sz ≤ 2 ^ 31
    → bad_range sz i size ≡ false
    → (i < sz) × (i + size ≤ sz) × (size < 2 ^ 31)
bad_range-false sz i size top e = ground (arith, e)

bad_range-true :
    (sz i size : ℕ)
    → sz ≤ 2 ^ 31
    → i < sz
    → i + size ≤ sz
    → size < 2 ^ 31
    → bad_range sz i size ≡ false
bad_range-true sz i size top start stop' small = ground arith

accepted :
    (user : ℕ → ℕ) (sz arg size i : ℕ)
    → sz ≤ 2 ^ 31
    → check_range sz size (fetched user sz arg) ≡ some i
    → IsAccepted user sz arg size i
accepted user sz arg size i top e =
    let w = word_at user arg in
    let guard : Bool → Option ℕ = λ b. if b then none else some w in
    elim (Bool-cases (outside sz arg)) [
      | inl out ↦
          let missed : none ≡ some i = ap (λ b. check_range sz size (guard b)) (sym out) ∙ e in
          absurd (ground (arith, missed))
      | inr within ↦
          let shown : check_range sz size (some w) ≡ some i =
            ap (λ b. check_range sz size (guard b)) (sym within) ∙ e in
          elim (Bool-cases (bad_range sz w size)) [
            | inl bad ↦
                let missed : none ≡ some i = ap guard (sym bad) ∙ shown in
                absurd (ground (arith, missed))
            | inr good ↦
                let found : some w ≡ some i = ap guard (sym good) ∙ shown in
                let value : w ≡ i = ground (arith, found) in
                let (start, end', small) = bad_range-false sz w size top good in
                subst (IsAccepted user sz arg size) value (record {
                  word_inside = outside-false sz arg top within;
                  value = refl;
                  start_inside = start;
                  inside = end';
                  positive = small;
                })
          ]
    ]

check_range_iff :
    (user : ℕ → ℕ) (sz arg size i : ℕ)
    → sz ≤ 2 ^ 31
    → (check_range sz size (fetched user sz arg) ≡ some i) ↔ IsAccepted user sz arg size i
check_range_iff user sz arg size i top = (
  accepted user sz arg size i top,
  λ a.
      let within : outside sz arg ≡ false = outside-true sz arg top a.word_inside in
      let good : bad_range sz i size ≡ false =
        bad_range-true sz i size top a.start_inside a.inside a.positive in
      rw (within, a.value, good) refl,
)

-- argptr returns, and gives a pointer just when the word of the argument and the `size` bytes that
-- it points to lie in the memory of the process, and then that pointer: no sum in its tests wraps
-- around, for a memory that ends at KERNBASE or below.
pub argptr_iff :
    (user : ℕ → ℕ) (r : Proc) (k : Kernel)
    → IsRunning r k
    → r.sz ≤ 2 ^ 31
    → (n size : ℕ)
    → (o : Option ℕ) × (argptr user n size k ≡ ok (o, settled_kernel k))
      × ((i : ℕ) → (o ≡ some i) ↔ IsAccepted user r.sz (arg_at k r n) size i)
argptr_iff user r k run top n size = (
  check_range r.sz size (fetched user r.sz (arg_at k r n)),
  argptr-checked user r k run n size,
  λ i. check_range_iff user r.sz (arg_at k r n) size i top,
)
