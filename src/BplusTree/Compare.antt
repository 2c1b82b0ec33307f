-- ===== src/BplusTree/Compare.antt =====
-- The comparison of keys in bplus_tree.cpp. The `int` that a comparison returns is read by its sign
-- only, and is an `Ordering` here.
use Prim.Native.Nat.{compare, Ordering}
use Prim.Native.Nat.Ordering.{lt, eq, gt}
use atangyldb.Base.{ℕ, zero, suc, ◌+◌, ◌%◌, ◌^◌, Bool, true, false, not, ◌&&◌, if◌then◌else◌, ◌==◌}
use atangyldb.Memory.{Bytes, load_int, offset}
use atangyldb.Trx.{Rid}
use atangyldb.BplusTree.{
  AttrType, chars, ints, floats, dates, CompOp, equal_to, less_equal, not_equal, less_than,
  great_equal, great_than, no_op, Key, FileHeader, Floats,
}

-- Two `int`s, given by their bits.
unfoldable pub compare_int : ℕ → ℕ → Ordering
compare_int a b = compare ((a + 2 ^ 31) % 2 ^ 32) ((b + 2 ^ 31) % 2 ^ 32)

-- `strncmp`: at most `n` characters, up to the first NUL.
unfoldable pub strncmp : Bytes → Bytes → ℕ → Ordering
strncmp a b zero = eq
strncmp a b (suc n) = elim (compare (a 0) (b 0)) [
  | lt ↦ lt
  | gt ↦ gt
  | eq ↦ if a 0 == 0 then eq else strncmp (offset a 1) (offset b 1) n
]

-- `CmpRid`
unfoldable pub compare_rid : Rid → Rid → Ordering
unfolding compare_int
compare_rid a b = elim (compare_int a.page_num b.page_num) [
  | lt ↦ lt
  | gt ↦ gt
  | eq ↦ compare_int a.slot_num b.slot_num
]

abbrev pub is_lt : Ordering → Bool
is_lt o = elim o [ lt ↦ true | eq ↦ false | gt ↦ false ]

abbrev pub is_gt : Ordering → Bool
is_gt o = elim o [ lt ↦ false | eq ↦ false | gt ↦ true ]

abbrev pub is_eq : Ordering → Bool
is_eq o = elim o [ lt ↦ false | eq ↦ true | gt ↦ false ]

-- What a condition says of two values that compare as `o`.
unfoldable pub holds : CompOp → Ordering → Bool
holds equal_to o = is_eq o
holds less_than o = is_lt o
holds great_than o = is_gt o
holds less_equal o = not (is_gt o)
holds great_equal o = not (is_lt o)
holds not_equal o = not (is_eq o)
holds no_op o = true
holds op o = false

module _ (fl : Floats) where
  -- `float_compare`
  unfoldable pub float_compare : fl.Float → fl.Float → Ordering
  float_compare f1 f2 =
      let result = fl.minus f1 f2 in
      if fl.less result fl.tolerance && fl.less fl.minus_tolerance result
      then eq
      else if fl.less fl.zero_float result
      then gt
      else lt

  -- `CompareKey`; the result for an unknown type is -2.
  unfoldable pub compare_key : AttrType → ℕ → Bytes → Bytes → Ordering
  unfolding compare_int strncmp float_compare
  compare_key ints length a b = compare_int (load_int a 0) (load_int b 0)
  compare_key floats length a b = float_compare (fl.bits a) (fl.bits b)
  compare_key chars length a b = strncmp a b length
  compare_key dates length a b = strncmp a b length
  compare_key type length a b = lt

  -- `CmpKey`
  unfoldable pub cmp_key : FileHeader → Key → Key → Ordering
  unfolding compare_key compare_rid
  cmp_key h a b = elim (compare_key h.attr_type h.attr_length a.attr b.attr) [
    | lt ↦ lt
    | gt ↦ gt
    | eq ↦ compare_rid a.rid b.rid
  ]

  -- The same for floating-point numbers: only the tests for equality have a tolerance.
  unfoldable pub float_holds : CompOp → fl.Float → fl.Float → Bool
  unfolding float_compare
  float_holds equal_to a b = is_eq (float_compare a b)
  float_holds less_than a b = fl.less a b
  float_holds great_than a b = fl.less b a
  float_holds less_equal a b = fl.at_most a b
  float_holds great_equal a b = fl.at_most b a
  float_holds not_equal a b = not (is_eq (float_compare a b))
  float_holds no_op a b = true
  float_holds op a b = false

  -- `satisfy_condition`. LOG_PANIC, for a type or an operator that has no case, only writes a line.
  unfoldable pub satisfy_condition : CompOp → AttrType → ℕ → Bytes → Bytes → Bool
  unfolding holds float_holds compare_int strncmp
  satisfy_condition op ints length a b = holds op (compare_int (load_int a 0) (load_int b 0))
  satisfy_condition op floats length a b = float_holds op (fl.bits a) (fl.bits b)
  satisfy_condition op chars length a b = holds op (strncmp a b length)
  satisfy_condition op dates length a b = holds op (strncmp a b length)
  satisfy_condition no_op type length a b = true
  satisfy_condition op type length a b = false
