-- ===== src/Tests/Trees.antt =====
-- The allocator over a search tree at concrete states.
use soproyecto.Common.{ℕ, ◌≡◌, inl, refl, false, some, ok, arith, if◌then◌else◌, ◌==◌}
use soproyecto.Tests.Demo.{machine_with}
use soproyecto.Bestfit.Tree.{Node, Kmem, new_node, bst_insert, bst_find_best_fit}
use soproyecto.Bestfit.{kfree, freerange}
use soproyecto.Bestfit.Shape.{Tree, leaf, node}
use soproyecto.Bestfit.Find.{FitsBest, bst_find_best_fit_lem}
use soproyecto.Bestfit.Ordered.{IsTree, AddsBlock, bst_insert-IsTree}
use soproyecto.Bestfit.Pool.{merged, IsSingle, IsUsedUp, freerange-used_up, kfree-merged}

-- A block of two pages, and one of one page to its left.
abbrev two_nodes : ℕ → Node
two_nodes i =
    if i == 1
    then record (new_node 0x80400000 8192) { left = 2 }
    else record (new_node 0x80410000 4096) { parent = 1 }

abbrev two_blocks : Tree
two_blocks = node (node leaf 2 leaf) 1 leaf

abbrev allocator : Kmem
allocator = record {
  machine = machine_with 0;
  use_lock = false;
  root = 1;
  total_free = 12288;
  num_blocks = 2;
  nodes = two_nodes;
  next_node_idx = 2;
}

allocator-IsTree : IsTree allocator two_blocks
allocator-IsTree = record {
  stored = omega arith;
  ordered = ((tt, inl (omega arith), tt), tt, (tt, tt, tt, tt), tt);
  distinct = (
    (λ y h. ((λ e. ground (arith, h, e)), λ f. f)),
    (λ y h. absurd h),
    ((λ y h. absurd h), (λ y h. absurd h), tt, tt),
    tt,
  );
  within = λ y h. ground (arith, h);
}

bst_find_best_fit_lem_example :
    (b : ℕ) × (bst_find_best_fit 4 two_nodes 1 4096 0 ≡ some b)
    × FitsBest two_nodes 4096 two_blocks b
bst_find_best_fit_lem_example =
    bst_find_best_fit_lem 4 two_nodes 4096 1 two_blocks (omega arith) allocator-IsTree.stored
      allocator-IsTree.ordered

bst_insert-IsTree_example :
    (k' : Kmem) × (t' : Tree) × (bst_insert 4 0x80500000 4096 allocator ≡ ok (3, k'))
    × IsTree k' t'
    × AddsBlock 0x80500000 4096 allocator k' two_blocks t'
bst_insert-IsTree_example =
    bst_insert-IsTree 4 0x80500000 4096 allocator two_blocks allocator-IsTree (omega arith)
      (omega arith)

-- The same with no node left in the pool.
abbrev exhausted : Kmem
exhausted = record allocator { next_node_idx = 128 }

exhausted-IsUsedUp : IsUsedUp exhausted two_blocks 4 0x80420000
exhausted-IsUsedUp = record {
  unlocked_yet = refl;
  used_up = omega arith;
  stored = allocator-IsTree.stored;
  enough = omega arith;
  below = ((tt, omega arith, tt), omega arith, tt);
}

freerange-used_up_example : freerange 3 5 0x80110000 0x8041f123 0x80422000 exhausted ≡ ok exhausted
freerange-used_up_example =
    freerange-used_up 2 4 0x80110000 0x8041f123 0x80422000 exhausted two_blocks exhausted-IsUsedUp
      (λ v after room aligned. ground (arith, after, room, aligned)) (omega arith) (omega arith)

-- One block of two pages.
abbrev single : Kmem
single = record allocator {
  nodes = λ _. new_node 0x80400000 8192;
  total_free = 8192;
  num_blocks = 1;
  next_node_idx = 1;
}

kfree-merged_example :
    (kfree 3 0x80110000 0x803ff000 single ≡ ok (merged 0x803ff000 8192 single))
    × IsSingle (merged 0x803ff000 8192 single) 2 0x803ff000 12288
kfree-merged_example =
    kfree-merged 0 0x80110000 0x803ff000 1 8192 single refl (omega arith) (refl, omega arith, refl)
      (omega arith) refl refl
