-- ===== src/Tests/Index.antt =====
-- The index of bplus_tree.cpp at concrete inputs.
use atangyldb.Base.{ℕ, ◌≡◌, ◌≢◌, ◌⊎◌, ◌↔◌, refl, Option, none, some, arith}
use Prim.Native.Nat.{Ordering}
use atangyldb.BplusTree.Arrays.{put, shift_up}
use atangyldb.Memory.{load_int}
use atangyldb.BplusTree.Node.{
  Buffer, gather, lower_leaf, upper_leaf, merge_leaf, prepend_key, drop_first, next_leaf,
}
use atangyldb.BplusTree.Split.Halves.{IsSplit, halves-IsSplit}
use atangyldb.BplusTree.Siblings.Merge.{merge_leaf-Merged}
use atangyldb.BplusTree.Siblings.Shares.{prepend_key-wrong_rid, drop_first-loses_child}
use atangyldb.Trx.{Rid}
use atangyldb.BplusTree.{Key, IndexNode}
use atangyldb.BplusTree.Compare.{compare_int, compare_rid, compare_key, cmp_key}
use atangyldb.BplusTree.Order.{IsOrder}
use atangyldb.BplusTree.Order.Keys.{cmp_key-IsOrder}
use atangyldb.BplusTree.Tree.{AtLeast, Below, IsOrdered, HasEntry}
use atangyldb.Tests.IndexPages.{
  shelf_pool, no_floats, rid_of, key_for, int_header, leaf_with, root_node,
}

leaf_with-IsOrdered :
    (v next : ℕ) (lo hi : Option Key)
    → AtLeast (cmp_key no_floats int_header) lo (key_for v)
    → Below (cmp_key no_floats int_header) hi (key_for v)
    → IsOrdered (cmp_key no_floats int_header) (leaf_with v next) lo hi
leaf_with-IsOrdered v next lo hi a b = record {
  ascending = λ i j h k. ground arith;
  at_least = λ i h. a;
  below = λ i h. b;
}

-- The leaf with the key 5, between no bounds.
abbrev five : IndexNode
five = leaf_with 5 3

abbrev ten : IndexNode
ten = leaf_with 10 0

abbrev by_key : Key → Key → Ordering
by_key = cmp_key no_floats int_header

abbrev memory : Buffer
memory = record { keys = shelf_pool.fresh_keys; rids = shelf_pool.fresh_rids }

by_key-IsOrder : IsOrder by_key
by_key-IsOrder = cmp_key-IsOrder no_floats int_header tt

-- A leaf of an index of order 2 is full with one key.
halves-IsSplit_example :
    IsSplit by_key 2 five none none
      (key_for 10)
      (rid_of 10)
      4
      (lower_leaf 2 4 (gather memory 1 (key_for 10) (rid_of 10) five) five)
      (upper_leaf 2 (gather memory 1 (key_for 10) (rid_of 10) five) five ten)
unfolding cmp_key compare_key compare_rid compare_int load_int
halves-IsSplit_example =
    halves-IsSplit by_key 2 memory 1 (key_for 10) (rid_of 10) five ten 4 refl (omega arith) none
      none by_key-IsOrder (leaf_with-IsOrdered 5 3 none none tt tt)
      (record { le = omega arith; before = λ j h. refl; after = λ j h k. ground arith }) tt tt

merge_leaf-Merged_example :
    IsOrdered by_key (merge_leaf 4 five ten) none none
    × (next_leaf 4 (merge_leaf 4 five ten) ≡ next_leaf 4 ten)
    × ((k : Key) (rid : Rid)
        → HasEntry by_key (merge_leaf 4 five ten) k rid
          ↔ (HasEntry by_key five k rid ⊎ HasEntry by_key ten k rid))
unfolding cmp_key compare_key compare_rid compare_int load_int
merge_leaf-Merged_example =
    merge_leaf-Merged by_key 4 five ten (omega arith) none none (key_for 10) by_key-IsOrder
      (leaf_with-IsOrdered 5 3 none (some (key_for 10)) tt refl)
      (leaf_with-IsOrdered 10 0 (some (key_for 10)) none refl tt) tt tt

prepend_key-wrong_rid_example : rid_of 10 ≡ ten.rids 0
unfolding cmp_key compare_key compare_rid compare_int load_int prepend_key put shift_up
prepend_key-wrong_rid_example =
    prepend_key-wrong_rid by_key ten (key_for 5) none none (rid_of 10) by_key-IsOrder
      (leaf_with-IsOrdered 10 0 none none tt tt) (omega arith) refl (0, omega arith, refl, refl)

drop_first-loses_child_example :
    ((drop_first root_node).rids 0).page_num ≢ (root_node.rids 1).page_num
drop_first-loses_child_example =
    drop_first-loses_child root_node (omega arith) (λ i j a b e. ground arith) 0 (omega arith)
