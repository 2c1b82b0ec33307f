-- ===== src/RecordPage.antt =====
-- One page of records, storage/common/record_manager.cpp: a header of five `int`s, a bitmap of the
-- occupied slots and the records, all in the bytes `page.data`. The functions work on these bytes;
-- what the handler does with the buffer pool around them is in RecordHandler.
pub mod Layout
pub mod Content
pub mod Insert
pub mod Edit
pub mod Fresh
pub mod Read
use atangyldb.Base.{
  ℕ, zero, suc, ◌+◌, ◌-◌, ◌*◌, ◌/◌, ◌%◌, ◌^◌, Bool, Option, none, some, if◌then◌else◌, ◌==◌, leb,
  not,
}
use atangyldb.Memory.{Bytes, load_int, store_int, copy_in, fill, offset, over}
use atangyldb.Bitmap.{get_bit, set_bit, clear_bit, next_setted_bit, next_unsetted_bit}
use atangyldb.Rc.{
  Result, ok, err, undefined, record_nomem, record_eof, record_invalidrid, record_record_not_exist,
  invalid_argument,
}

-- `sizeof(Page::data)`: BP_PAGE_SIZE less a page number.
abbrev pub page_data_size : ℕ
page_data_size = 4092

unfoldable pub align8 : ℕ → ℕ
align8 size = size / 8 * 8 + (if size % 8 == 0 then 0 else 8)

-- The sum of five `sizeof(int)`.
abbrev pub page_fix_size : ℕ
page_fix_size = 20

-- `(int)((page_size - fix_size - 1) / (record_size + 0.125))`, as a division of whole numbers:
-- the quotient of doubles is exact enough, since the fraction has a denominator below 2 ^ 16.
unfoldable pub page_record_capacity : ℕ → ℕ → ℕ
page_record_capacity page_size record_size =
    8 * (page_size - page_fix_size - 1) / (8 * record_size + 1)

unfoldable pub page_bitmap_size : ℕ → ℕ
page_bitmap_size capacity = capacity / 8 + (if capacity % 8 == 0 then 0 else 1)

unfoldable pub page_header_size : ℕ → ℕ
unfolding align8 page_bitmap_size
page_header_size capacity = align8 (page_fix_size + page_bitmap_size capacity)

-- The fields of `PageHeader`.
abbrev pub record_num : Bytes → ℕ
record_num m = load_int m 0

abbrev pub record_capacity : Bytes → ℕ
record_capacity m = load_int m 4

abbrev pub record_real_size : Bytes → ℕ
record_real_size m = load_int m 8

abbrev pub record_size : Bytes → ℕ
record_size m = load_int m 12

abbrev pub first_record_offset : Bytes → ℕ
first_record_offset m = load_int m 16

-- `bitmap_`
abbrev pub bitmap : Bytes → Bytes
bitmap m = offset m page_fix_size

-- Where the record of a slot begins.
abbrev pub record_offset : Bytes → ℕ → ℕ
record_offset m slot = first_record_offset m + slot * record_size m

-- The writes of `RecordPageHandler::init_empty_page`.
unfoldable pub format_page : Bytes → ℕ → Bytes
format_page m size =
    let phy = align8 size in
    let capacity = page_record_capacity page_data_size phy in
    let m₁ = store_int m 0 0 in
    let m₂ = store_int m₁ 4 capacity in
    let m₃ = store_int m₂ 8 size in
    let m₄ = store_int m₃ 12 phy in
    let m₅ = store_int m₄ 16 (page_header_size capacity) in
    fill m₅ page_fix_size 0 (page_bitmap_size capacity)

-- `insert_record` once a free slot is found.
unfoldable pub place : Bytes → ℕ → Bytes → Bytes
place m index source =
    let m₁ = over m page_fix_size (set_bit (bitmap m) index) in
    let m₂ = store_int m₁ 0 (record_num m₁ + 1) in
    copy_in m₂ (record_offset m₂ index) source (record_real_size m₂)

-- `RecordPageHandler::insert_record`: the slot taken, and the page. The source uses the result of
-- the search as an index without a test.
unfoldable pub insert : Bytes → Bytes → Result ℕ × Bytes
unfolding place
insert m source =
    if record_num m == record_capacity m
    then (err record_nomem, m)
    else elim (next_unsetted_bit (bitmap m) (record_capacity m) 0) [
      | none ↦ (undefined, m)
      | some index ↦ (ok index, place m index source)
    ]

-- `RecordPageHandler::update_record`
unfoldable pub update : Bytes → ℕ → Bytes → Result (Unit {0}) × Bytes
update m slot source =
    if leb (record_capacity m) slot
    then (err invalid_argument, m)
    else if not (get_bit (bitmap m) slot)
    then (err record_record_not_exist, m)
    else (ok tt, copy_in m (record_offset m slot) source (record_real_size m))

-- The writes of `RecordPageHandler::delete_record`.
unfoldable pub vacate : Bytes → ℕ → Bytes
vacate m slot =
    let m₁ = over m page_fix_size (clear_bit (bitmap m) slot) in
    store_int m₁ 0 ((record_num m₁ + 2 ^ 32 - 1) % 2 ^ 32)

unfoldable pub delete : Bytes → ℕ → Result (Unit {0}) × Bytes
unfolding vacate
delete m slot =
    if leb (record_capacity m) slot
    then (err invalid_argument, m)
    else if get_bit (bitmap m) slot
    then (ok tt, vacate m slot)
    else (err record_record_not_exist, m)

-- `RecordPageHandler::get_record`: the address of the record in the page.
unfoldable pub get : Bytes → ℕ → Result ℕ
get m slot =
    if leb (record_capacity m) slot
    then err record_invalidrid
    else if not (get_bit (bitmap m) slot)
    then err record_record_not_exist
    else ok (record_offset m slot)

-- `slot_num + 1`
abbrev pub following : Option ℕ → ℕ
following none = 0
following (some slot) = slot + 1

-- `RecordPageHandler::get_next_record` after the slot `none` (-1) or `some slot`: the slot found.
-- `slot_num >= record_capacity - 1` is written without the subtraction.
unfoldable pub next : Bytes → Option ℕ → Result ℕ
next m after =
    let start = following after in
    if leb (record_capacity m) start
    then err record_eof
    else elim (next_setted_bit (bitmap m) (record_capacity m) start) [
      | none ↦ err record_eof
      | some index ↦ ok index
    ]

-- `is_full`
unfoldable pub is_full : Bytes → Bool
is_full m = leb (record_capacity m) (record_num m)
