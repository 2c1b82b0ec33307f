-- ===== src/Tests/Records.antt =====
-- A page of records, record_manager.cpp, at concrete inputs.
use atangyldb.Base.{
  ℕ, ◌+◌, ◌≤◌, ◌<◌, ◌≡◌, ◌≢◌, refl, sym, ap, ◌∙◌, Bool, true, false, Option, some, arith, ◌==◌,
}
use atangyldb.Base.First.{First}
use atangyldb.Memory.{Bytes, IsBytes, load_int, store_int, fill, offset}
use atangyldb.Bitmap.{next_unsetted_bit}
use atangyldb.Rc.{ok, err, invalid_argument, record_record_not_exist}
use atangyldb.RecordPage.{
  align8, page_data_size, page_record_capacity, page_bitmap_size, record_num, record_capacity,
  record_real_size, format_page, insert, update, delete, get, next, following,
}
use atangyldb.RecordPage.Layout.{page_end, page_end-fits}
use atangyldb.RecordPage.Content.{occupied}
use atangyldb.RecordPage.Fresh.{Fresh, format_page-Fresh}
use atangyldb.RecordPage.Insert.{Inserted, insert-Inserted}
use atangyldb.RecordPage.Edit.{Deleted, Updated, delete-Deleted, update-Updated}
use atangyldb.RecordPage.Read.{found_or_eof, get-insert, get-delete, next-First, next-delete_skips}
use atangyldb.RecordFile.Scanner.{next_in_page}
use atangyldb.RecordFile.Scanner.InPage.{wanted, next_in_page-First}

abbrev blank : Bytes
blank _ = 0

blank-IsBytes : IsBytes blank
blank-IsBytes i = omega arith

abbrev pub sevens : Bytes
sevens _ = 7

pub sevens-IsBytes : IsBytes sevens
sevens-IsBytes i = omega arith

-- A page for records of 16 bytes.
abbrev pub empty_page : Bytes
empty_page = format_page blank 16

format_page-Fresh_test : Fresh 16 (format_page blank 16)
format_page-Fresh_test = format_page-Fresh blank 16 blank-IsBytes (omega arith)

pub empty : Fresh 16 empty_page
empty = format_page-Fresh blank 16 blank-IsBytes (omega arith)

slots : record_capacity empty_page ≡ 252
unfolding page_record_capacity align8
slots = empty.capacity

has_room : record_num empty_page ≢ record_capacity empty_page
has_room e = absurd (omega (arith, empty.num, slots))

insert-Inserted_example :
    (index : ℕ) × (m' : Bytes) × (insert empty_page sevens ≡ (ok index, m'))
    × Inserted empty_page index sevens m'
insert-Inserted_example = insert-Inserted empty_page empty.valid sevens sevens-IsBytes has_room

-- The page after one insertion, which took slot 0.
abbrev one_page : Bytes
one_page = (insert empty_page sevens).1

inserted : insert empty_page sevens ≡ (ok 0, one_page)
unfolding insert format_page load_int fill store_int page_record_capacity align8 next_unsetted_bit
    offset page_bitmap_size
inserted = refl

ins : Inserted empty_page 0 sevens one_page
ins =
    let (index, m', done, i) =
      insert-Inserted empty_page empty.valid sevens sevens-IsBytes has_room in
    let e = sym done ∙ inserted in
    let same : index ≡ 0 = cc in let page : m' ≡ one_page = cc in rw (same, page) at i

slots' : record_capacity one_page ≡ 252
slots' = ins.layout.capacity ∙ slots

held : occupied one_page 0 ≡ true
held = ins.slots 0 (rw slots (omega arith))

get-insert_example :
    (a : ℕ) × (get one_page 0 ≡ ok a)
    × ((k : ℕ) → k < record_real_size empty_page → one_page (a + k) ≡ sevens k)
get-insert_example = get-insert empty_page sevens one_page 0 empty.valid sevens-IsBytes inserted

delete-Deleted_example :
    (record_capacity one_page ≤ 0 → delete one_page 0 ≡ (err invalid_argument, one_page))
    × (0 < record_capacity one_page
        → occupied one_page 0 ≡ false
        → delete one_page 0 ≡ (err record_record_not_exist, one_page))
    × (0 < record_capacity one_page
        → occupied one_page 0 ≡ true
        → (m' : Bytes) × (delete one_page 0 ≡ (ok tt, m')) × Deleted one_page 0 m')
delete-Deleted_example = delete-Deleted one_page 0 ins.valid

update-Updated_example :
    (record_capacity one_page ≤ 0 → update one_page 0 blank ≡ (err invalid_argument, one_page))
    × (0 < record_capacity one_page
        → occupied one_page 0 ≡ false
        → update one_page 0 blank ≡ (err record_record_not_exist, one_page))
    × (0 < record_capacity one_page
        → occupied one_page 0 ≡ true
        → (m' : Bytes) × (update one_page 0 blank ≡ (ok tt, m')) × Updated one_page 0 blank m')
update-Updated_example = update-Updated one_page 0 blank ins.valid blank-IsBytes

next-First_test :
    (r : Option ℕ) × (next one_page (some 0) ≡ found_or_eof r)
    × First (occupied one_page) (following (some 0)) (record_capacity one_page) r
next-First_test = next-First one_page (some 0) held

-- A filter that accepts a record by its first byte.
abbrev starts_with : ℕ → Bytes → Bool
starts_with b bytes = bytes 0 == b

next_in_page-First_example :
    (r : Option ℕ) × (next_in_page (some (starts_with 7)) one_page 253 (some 0) ≡ found_or_eof r)
    × First
        (wanted (some (starts_with 7)) one_page)
        (following (some 0))
        (record_capacity one_page)
        r
next_in_page-First_example =
    next_in_page-First (some (starts_with 7)) one_page 253 (some 0) held (rw slots' (omega arith))

-- The page after the deletion of its only record.
abbrev gone_page : Bytes
gone_page = (delete one_page 0).1

deleted : delete one_page 0 ≡ (ok tt, gone_page)
deleted =
    let (m', e, gone) = (delete-Deleted one_page 0 ins.valid).2 (rw slots' (omega arith)) held in
    e ∙ ap (λ (m : Bytes). (ok tt, m)) (sym (ap (λ r. r.1) e))

get-delete_test : get gone_page 0 ≡ err record_record_not_exist
get-delete_test = get-delete one_page gone_page 0 ins.valid deleted

alone : (i : ℕ) → i < 8 → i ≢ 0 → occupied one_page (0 + i) ≡ false
alone i lt n =
    let here : 0 + i ≡ i = omega arith in
    rw here
      (ins.slots i (rw slots (omega arith)) ∙ ground (arith, empty.free i (rw slots (omega arith))))

next-delete_skips_example : next gone_page (some 0) ≢ ok 8
next-delete_skips_example =
    next-delete_skips one_page gone_page 0 ins.valid (rw slots' (omega arith)) alone (omega arith)
      deleted 8 (omega arith)

page_end-fits_test : page_end (align8 16) ≤ page_data_size
page_end-fits_test = page_end-fits 16 (omega arith)
