-- ===== src/Tests/Filters.antt =====
-- The filters of condition_filter.cpp and the dates of meta_util.cpp at concrete inputs.
use Prim.Native.Nat.{compare}
use atangyldb.Base.{◌≡◌, ◌≢◌, refl, false, some, [], if◌then◌else◌, ◌==◌, arith}
use atangyldb.Memory.{Bytes, load_int}
use atangyldb.BplusTree.{CompOp, chars, ints, less_than, no_op, minus_one}
use atangyldb.BplusTree.Compare.{strncmp, satisfy_condition}
use atangyldb.ConditionFilter.{FieldMeta, Value, ConDesc, DefaultConditionFilter, side, filter}
use atangyldb.ConditionFilter.Compared.{filter-satisfy_condition}
use atangyldb.DateUtil.{format_date}
use atangyldb.DateUtil.Sorted.{date_number, format_date-orders}
use atangyldb.Tests.IndexPages.{no_floats, attr_of}

abbrev constant : Bytes → ConDesc
constant value = record {
  is_attr = false;
  attr_index = minus_one;
  attr_length = 0;
  attr_offset = 0;
  is_null = false;
  value = some value;
}

abbrev zeros : Bytes
zeros i = 0

abbrev test_of : CompOp → Bytes → Bytes → DefaultConditionFilter
test_of op a b = record {
  fields = [];
  left = constant a;
  right = constant b;
  attr_type = ints;
  comp_op = op;
}

filter-satisfy_condition_example :
    filter no_floats (test_of less_than (attr_of 5) (attr_of 7)) zeros
    ≡ satisfy_condition no_floats less_than ints 4 (attr_of 5) (attr_of 7)
unfolding side load_int
filter-satisfy_condition_example =
    filter-satisfy_condition no_floats (test_of less_than (attr_of 5) (attr_of 7)) zeros (attr_of 5)
      (attr_of 7) refl refl refl (omega arith) (omega arith) 4 less_than-ne (omega arith)
      (omega arith)
  where
    less_than-ne : less_than ≢ no_op
    less_than-ne e = ground arith

-- 2147483647 and -1.
abbrev largest : Bytes
largest i = if i == 3 then 127 else 255

abbrev ones : Bytes
ones i = 255

abbrev age : FieldMeta
age = record { name = attr_of 65; attr_type = ints; attr_offset = 8; attr_len = 4 }

abbrev text : Value
text = record { type = chars; isnull = false; bytes = attr_of 66 }

format_date-orders_example :
    strncmp (format_date 1999 12 31 zeros) (format_date 2000 1 1 zeros) 12
    ≡ compare (date_number 1999 12 31) (date_number 2000 1 1)
format_date-orders_example =
    format_date-orders 1999 12 31 2000 1 1 zeros zeros (omega arith) (omega arith) (omega arith)
      (omega arith) (omega arith) (omega arith) 12 (omega arith)
