-- ===== src/ConditionFilter/Accepted.antt =====
-- Which conditions `DefaultConditionFilter::init` of condition_filter.cpp accepts.
use atangyldb.Base.{true, false, none, some, List}
use atangyldb.Memory.{Bytes}
use atangyldb.BplusTree.{minus_one, ints, equal_to}
use atangyldb.ConditionFilter.{FieldMeta, field_index, Value, Condition, DefaultConditionFilter}

-- `name = constant`
abbrev pub equals : Bytes → Value → Condition
equals name value = record {
  left_is_attr = true;
  left_value = value;
  left_attr = some name;
  comp = equal_to;
  right_is_attr = false;
  right_attr = some name;
  right_value = value;
}

-- The filter on the field and the constant.
abbrev pub equals_filter : List FieldMeta → Bytes → FieldMeta → Value → DefaultConditionFilter
unfolding field_index
equals_filter fields name f value = record {
  fields = fields;
  left = record {
    is_attr = true;
    attr_index = field_index fields (some name) 0;
    attr_length = f.attr_len;
    attr_offset = f.attr_offset;
    is_null = true;
    value = none;
  };
  right = record {
    is_attr = false;
    attr_index = minus_one;
    attr_length = 0;
    attr_offset = 0;
    is_null = false;
    value = some value.bytes;
  };
  attr_type = ints;
  comp_op = equal_to;
}
