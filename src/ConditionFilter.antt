-- ===== src/ConditionFilter.antt =====
-- The filters on records of storage/common/condition_filter.cpp, and what they use of the metadata of a
-- table.
pub mod Compared
pub mod Accepted
use Prim.Native.Nat.{Ordering}
use Prim.Native.Nat.Ordering.{lt, eq, gt}
use atangyldb.Base.{
  ℕ, zero, suc, ◌+◌, ◌-◌, ◌%◌, ◌^◌, Bool, true, false, not, ◌&&◌, ◌||◌, Option, none, some, List,
  [], ◌∷◌, if◌then◌else◌, ◌==◌, ltb,
}
use atangyldb.Memory.{Bytes, load_int, offset}
use atangyldb.Rc.{
  Result, ok, err, undefined, invalid_argument, schema_field_missing, schema_field_type_mismatch,
}
use atangyldb.Bitmap.{get_bit}
use atangyldb.BplusTree.{
  AttrType, undefined_attr, chars, ints, dates, texts, floats, CompOp, equal_to, less_equal,
  not_equal, less_than, great_equal, great_than, is, is_not, in_op, not_in_op, no_op, minus_one,
  Floats,
}
use atangyldb.BplusTree.Compare.{strncmp, float_compare, is_lt, is_eq, is_gt}
use atangyldb.DateUtil.{check_and_format_date}

-- `strcmp`, of strings that end before the 2 ^ 32th character.
abbrev pub strcmp : Bytes → Bytes → Ordering
unfolding strncmp
strcmp a b = strncmp a b (2 ^ 32)

-- FieldMeta, by what the filters ask for.
pub record FieldMeta : Type 0 where
  pub name : Bytes
  pub attr_type : AttrType
  pub attr_offset : ℕ
  pub attr_len : ℕ

-- `TableMeta::field`; a name may be null.
unfoldable pub field : List FieldMeta → Option Bytes → Option FieldMeta
unfolding strcmp
field [] name = none
field (f ∷ fields) name =
    let rest = field fields name in
    elim name [ none ↦ none | some n ↦ if is_eq (strcmp f.name n) then some f else rest ]

-- `TableMeta::field_index`, from the index `i` on.
unfoldable pub field_index : List FieldMeta → Option Bytes → ℕ → ℕ
unfolding strcmp
field_index [] name i = minus_one
field_index (f ∷ fields) name i =
    let rest = field_index fields name (i + 1) in
    elim name [ none ↦ minus_one | some n ↦ if is_eq (strcmp f.name n) then i else rest ]

pub record Value : Type 0 where
  pub type : AttrType
  pub isnull : Bool
  pub bytes : Bytes

-- The parts of a Condition that DefaultConditionFilter reads: each side is an attribute or a value.
pub record Condition : Type 0 where
  pub left_is_attr : Bool
  pub left_value : Value
  pub left_attr : Option Bytes
  pub comp : CompOp
  pub right_is_attr : Bool
  pub right_attr : Option Bytes
  pub right_value : Value

pub record ConDesc : Type 0 where
  pub is_attr : Bool
  pub attr_index : ℕ
  pub attr_length : ℕ
  pub attr_offset : ℕ
  pub is_null : Bool
  pub value : Option Bytes

-- DefaultConditionFilter, with the fields of its table.
pub record DefaultConditionFilter : Type 0 where
  pub fields : List FieldMeta
  pub left : ConDesc
  pub right : ConDesc
  pub attr_type : AttrType
  pub comp_op : CompOp

-- `cmp_result` compared with 0 as the operator says.
unfoldable pub compare_result : Ordering → CompOp → Bool
compare_result o equal_to = is_eq o
compare_result o less_equal = not (is_gt o)
compare_result o not_equal = not (is_eq o)
compare_result o less_than = is_lt o
compare_result o great_equal = not (is_lt o)
compare_result o great_than = is_gt o
compare_result o op = false

abbrev pub is_compare : CompOp → Bool
is_compare no_op = false
is_compare op = true

abbrev pub is_known : AttrType → Bool
is_known undefined_attr = false
is_known type = true

-- `init` with descriptions of the two sides.
unfoldable pub init_desc :
    List FieldMeta → ConDesc → ConDesc → AttrType → CompOp → Result DefaultConditionFilter
init_desc fields left right type op =
    let made : DefaultConditionFilter = record {
      fields = fields;
      left = left;
      right = right;
      attr_type = type;
      comp_op = op;
    } in
    if not (is_known type) && not left.is_null
    then err invalid_argument
    else if not (is_compare op)
    then err invalid_argument
    else ok made

abbrev pub is_dates : AttrType → Bool
is_dates dates = true
is_dates type = false

abbrev pub is_chars : AttrType → Bool
is_chars chars = true
is_chars type = false

abbrev pub same_type : AttrType → AttrType → Bool
same_type undefined_attr undefined_attr = true
same_type chars chars = true
same_type ints ints = true
same_type dates dates = true
same_type texts texts = true
same_type floats floats = true
same_type a b = false

-- The name of an attribute names a field of type DATES.
abbrev pub dated : List FieldMeta → Bool → Option Bytes → Bool
unfolding field
dated fields is_attr name =
    is_attr && (elim (field fields name) [ none ↦ false | some f ↦ is_dates f.attr_type ])

-- The description of one side, and its type. `stale` is what `is_null` holds before it is set, which it
-- is not for an attribute; `opposite` says that the other side is a field of type DATES.
unfoldable pub describe :
    List FieldMeta → Bool → Bool → Option Bytes → Value → Bool → Result (ConDesc × AttrType)
unfolding field field_index
describe fields stale is_attr name value opposite =
    let attribute : Result (ConDesc × AttrType) = elim (field fields name) [
      | none ↦ err schema_field_missing
      | some f ↦ ok (
        record {
          is_attr = true;
          attr_index = field_index fields name 0;
          attr_length = f.attr_len;
          attr_offset = f.attr_offset;
          is_null = stale;
          value = none;
        },
        f.attr_type,
      )
    ] in
    let desc : Bool → Option Bytes → ConDesc = λ null bytes. record {
      is_attr = false;
      attr_index = minus_one;
      attr_length = 0;
      attr_offset = 0;
      is_null = null;
      value = bytes;
    } in
    let type = if opposite && is_chars value.type then dates else value.type in
    let constant : Result (ConDesc × AttrType) =
      if value.isnull
      then ok (desc true none, undefined_attr)
      else ok (desc false (some value.bytes), type) in
    if is_attr then attribute else constant

-- A string that is compared with a date is checked, and gets its standard form in place.
unfoldable pub formatted : Bool → ConDesc → Result ConDesc
unfolding check_and_format_date
formatted false desc = ok desc
formatted true desc = elim desc.value [
  | none ↦ undefined
  | some bytes ↦ elim (check_and_format_date bytes) [
    | none ↦ err schema_field_type_mismatch
    | some bytes' ↦ ok (record desc { value = some bytes' })
  ]
]

abbrev pub is_null_test : CompOp → Bool
is_null_test is = true
is_null_test is_not = true
is_null_test op = false

abbrev pub and_then : {A B : Type 0} → Result A → (A → Result B) → Result B
and_then (ok a) f = f a
and_then (err e) f = err e
and_then undefined f = undefined

-- `init` with a condition. `stale_left` and `stale_right` are what the memory of the two descriptions held.
unfoldable pub init : List FieldMeta → Bool → Bool → Condition → Result DefaultConditionFilter
unfolding describe formatted init_desc dated
init fields stale_left stale_right c =
    let left_dated = dated fields c.left_is_attr c.left_attr in
    let right_dated = dated fields c.right_is_attr c.right_attr in
    and_then (describe fields stale_left c.left_is_attr c.left_attr c.left_value right_dated) λ l.
      and_then (describe fields stale_right c.right_is_attr c.right_attr c.right_value left_dated)
        λ r.
          and_then (formatted (not c.left_is_attr && not c.left_value.isnull && right_dated) l.0)
            λ left.
              and_then
                (formatted (not c.right_is_attr && not c.right_value.isnull && left_dated) r.0)
                λ right.
                  if not left.is_null && not right.is_null && not (same_type l.1 r.1)
                  then err schema_field_type_mismatch
                  else if is_null_test c.comp && not right.is_null
                  then err schema_field_type_mismatch
                  else init_desc fields left right l.1 c.comp

-- The value of a side in a record, `none` for NULL. The bitmap of the fields that are NULL is the
-- beginning of the record.
unfoldable pub side : ConDesc → Bytes → Option Bytes
unfolding get_bit
side desc bytes =
    let attribute =
      if get_bit bytes desc.attr_index then none else some (offset bytes desc.attr_offset) in
    let constant = if desc.is_null then none else desc.value in
    if desc.is_attr then attribute else constant

-- The sign of `left - right` in an `int`, which wraps.
unfoldable pub difference : ℕ → ℕ → Ordering
difference left right =
    let bits = (left + 2 ^ 32 - right) % 2 ^ 32 in
    if bits == 0 then eq else if ltb bits (2 ^ 31) then gt else lt

module _ (fl : Floats) where
  -- `cmp_result` of two values; 0 for a type without a case.
  unfoldable pub compare_values : AttrType → Bytes → Bytes → Ordering
  unfolding strcmp difference float_compare
  compare_values chars a b = strcmp a b
  compare_values ints a b = difference (load_int a 0) (load_int b 0)
  compare_values floats a b = float_compare fl (fl.bits a) (fl.bits b)
  compare_values dates a b = strcmp a b
  compare_values type a b = eq

  abbrev pub is_is : CompOp → Bool
  is_is is = true
  is_is op = false

  abbrev pub is_is_not : CompOp → Bool
  is_is_not is_not = true
  is_is_not op = false

  -- `DefaultConditionFilter::filter`
  unfoldable pub filter : DefaultConditionFilter → Bytes → Bool
  unfolding side compare_values compare_result
  filter f bytes = elim (side f.left bytes) [
    | none ↦ elim (side f.right bytes) [ none ↦ is_is f.comp_op | some b ↦ false ]
    | some a ↦ elim (side f.right bytes) [
      | none ↦ is_is_not f.comp_op
      | some b ↦ compare_result (compare_values f.attr_type a b) f.comp_op
    ]
  ]

  -- `CompositeConditionFilter::filter`
  unfoldable pub filter_all : List DefaultConditionFilter → Bytes → Bool
  unfolding filter
  filter_all [] bytes = true
  filter_all (f ∷ filters) bytes =
      let rest = filter_all filters bytes in if filter f bytes then rest else false

-- `CompositeConditionFilter::init` with conditions, each with what the memory held.
unfoldable pub init_all :
    List FieldMeta → List (Bool × Bool × Condition) → Result (List DefaultConditionFilter)
unfolding init
init_all fields [] = ok []
init_all fields ((l, r, c) ∷ conditions) =
    let rest = init_all fields conditions in
    and_then (init fields l r c) λ f. and_then rest λ filters. ok (f ∷ filters)
