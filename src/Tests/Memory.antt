-- ===== src/Tests/Memory.antt =====
-- The page allocator at concrete free lists.
use soproyecto.Common.{ℕ, ◌≡◌, refl, true, ok, ◌>>=◌, List, [], ◌∷◌, arith, if◌then◌else◌, ◌==◌}
use soproyecto.Tests.Demo.{machine_with, shell-MayLock}
use soproyecto.Kalloc.{Kmem, kalloc, kfree}
use soproyecto.Kalloc.Pages.{IsFree, IsPaged, Allocated, kalloc_lem, kfree_lem}
use soproyecto.Kalloc.Uniform.{kalloc-kfree}
use soproyecto.Original
use soproyecto.Original.Agreement.{
  Agree, Request, get, give_back, serve_best_fit, serve_original, last_in_first_out, serve-eq,
}

-- A block of 8192 bytes at 0x80400000, then one of 4096 at 0x80402000, then one of 100.
abbrev uneven : Kmem
uneven = record {
  machine = machine_with 2;
  use_lock = true;
  freelist = 0x80400000;
  mem = λ a.
      if a == 0x80400000
      then record { size = 8192; next = 0x80402000 }
      else if a == 0x80402000
      then record { size = 4096; next = 0x80403000 }
      else record { size = 100; next = 0 };
}

-- Two blocks of one page.
abbrev paged : Kmem
paged = record uneven {
  mem = λ a.
      if a == 0x80400000
      then record { size = 4096; next = 0x80402000 }
      else record { size = 4096; next = 0 };
}

abbrev uneven_blocks : List ℕ
uneven_blocks = 0x80400000 ∷ 0x80402000 ∷ 0x80403000 ∷ []

abbrev paged_blocks : List ℕ
paged_blocks = 0x80400000 ∷ 0x80402000 ∷ []

uneven-IsFree : IsFree uneven uneven_blocks
uneven-IsFree = omega arith

paged-IsFree : IsFree paged paged_blocks
paged-IsFree = omega arith

kalloc_lem_example :
    (a : ℕ) × (k' : Kmem) × (kalloc 4 uneven ≡ ok (a, k')) × Allocated uneven uneven_blocks a k'
kalloc_lem_example =
    kalloc_lem 4 uneven uneven_blocks (shell-MayLock 68 2) uneven-IsFree (omega arith)

kfree_lem_example :
    (k' : Kmem) × (kfree 0x80100000 0x80500000 paged ≡ ok k')
    × IsFree k' (0x80500000 ∷ paged_blocks)
    × IsPaged k' (0x80500000 ∷ paged_blocks)
kfree_lem_example =
    kfree_lem 0x80100000 0x80500000 paged paged_blocks (shell-MayLock 68 2) paged-IsFree
      (omega arith) (omega arith) refl

kalloc-kfree_example :
    (k' : Kmem) × ((kfree 0x80100000 0x80500000 paged >>= kalloc 4) ≡ ok (0x80500000, k'))
    × IsFree k' paged_blocks
kalloc-kfree_example =
    kalloc-kfree 4 0x80100000 0x80500000 paged paged_blocks (shell-MayLock 68 2) paged-IsFree
      (omega arith) (omega arith) refl (omega arith)

-- The same list for the original allocator.
abbrev plain : Original.Kmem
plain = record {
  machine = machine_with 2;
  use_lock = true;
  freelist = 0x80400000;
  next = λ a. if a == 0x80400000 then 0x80402000 else 0;
}

paged-plain-Agree : Agree paged plain paged_blocks
paged-plain-Agree = record {
  free = paged-IsFree;
  paged = omega arith;
  may = shell-MayLock 68 2;
  machine = refl;
  use_lock = refl;
  freelist = refl;
  next = λ a. ground arith;
}

abbrev requests : List Request
requests = get ∷ get ∷ get ∷ give_back 0x80500000 ∷ get ∷ []

serve-eq_example :
    (serve_best_fit 9 0x80100000 requests paged ≡ ok (last_in_first_out requests paged_blocks))
    × (serve_original 0x80100000 requests plain ≡ ok (last_in_first_out requests paged_blocks))
serve-eq_example =
    serve-eq 9 0x80100000 requests paged plain paged_blocks paged-plain-Agree (refl, tt, tt)
      (omega arith)
