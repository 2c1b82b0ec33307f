-- ===== src/ConditionFilter/Compared.antt =====
-- How `DefaultConditionFilter::filter` of condition_filter.cpp compares integers.
use Prim.Native.Nat.{Ordering}
use atangyldb.Base.{ℕ, ◌+◌, ◌%◌, ◌^◌, ◌≤◌, ◌<◌, ◌≡◌, ◌≢◌, refl, ◌∙◌, ap, some, arith}
use atangyldb.Memory.{Bytes, load_int}
use atangyldb.BplusTree.{
  ints, CompOp, equal_to, less_equal, not_equal, less_than, great_equal, great_than, is, is_not,
  in_op, not_in_op, no_op, Floats,
}
use atangyldb.BplusTree.Compare.{compare_int, holds, satisfy_condition}
use atangyldb.ConditionFilter.{
  DefaultConditionFilter, side, difference, compare_values, compare_result, filter,
}

-- An `int` by its bits, as a number that is 2 ^ 31 greater.
abbrev pub biased : ℕ → ℕ
biased a = (a + 2 ^ 31) % 2 ^ 32

difference-compare_int :
    (a b : ℕ)
    → a < 2 ^ 32
    → b < 2 ^ 32
    → biased a < biased b + 2 ^ 31
    → biased b ≤ biased a + 2 ^ 31
    → difference a b ≡ compare_int a b
unfolding difference compare_int
difference-compare_int a b h k up down = ground arith

compare_result-holds : (op : CompOp) (o : Ordering) → op ≢ no_op → compare_result o op ≡ holds op o
unfolding compare_result holds
compare_result-holds equal_to o h = refl
compare_result-holds less_equal o h = refl
compare_result-holds not_equal o h = refl
compare_result-holds less_than o h = refl
compare_result-holds great_equal o h = refl
compare_result-holds great_than o h = refl
compare_result-holds is o h = refl
compare_result-holds is_not o h = refl
compare_result-holds in_op o h = refl
compare_result-holds not_in_op o h = refl
compare_result-holds no_op o h = absurd (h refl)

module _ (fl : Floats) (f : DefaultConditionFilter) (bytes a b : Bytes)
    (is_ints : f.attr_type ≡ ints) (left : side f.left bytes ≡ some a)
    (right : side f.right bytes ≡ some b) (a_int : load_int a 0 < 2 ^ 32)
    (b_int : load_int b 0 < 2 ^ 32) where
  filter_ints :
      filter fl f bytes ≡ compare_result (difference (load_int a 0) (load_int b 0)) f.comp_op
  unfolding filter compare_values
  filter_ints = rw (filter, left, right, is_ints) refl

  -- A filter on two integers whose difference is an `int` accepts a record exactly if the scan of an index
  -- does, for every operator that a filter may have: `filter` and `satisfy_condition` agree.
  pub filter-satisfy_condition :
      (length : ℕ)
      → f.comp_op ≢ no_op
      → biased (load_int a 0) < biased (load_int b 0) + 2 ^ 31
      → biased (load_int b 0) ≤ biased (load_int a 0) + 2 ^ 31
      → filter fl f bytes ≡ satisfy_condition fl f.comp_op ints length a b
  unfolding satisfy_condition
  filter-satisfy_condition length op up down =
      filter_ints
      ∙ ap (λ o. compare_result o f.comp_op)
          (difference-compare_int (load_int a 0) (load_int b 0) a_int b_int up down)
      ∙ compare_result-holds f.comp_op (compare_int (load_int a 0) (load_int b 0)) op
