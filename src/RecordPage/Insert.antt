-- ===== src/RecordPage/Insert.antt =====
-- `RecordPageHandler::insert_record` of record_manager.cpp against the slots and records of a page.
use atangyldb.Base.{
  ℕ, ◌+◌, ◌<◌, ◌≡◌, ◌≢◌, ◌∙◌, refl, ap, inl, inr, Bool, true, false, not, ◌&&◌, some, if◌then◌else◌,
  ◌==◌, arith, ltb, Option-cases, ==-self,
}
use atangyldb.Base.Count.{count_below-le, count_below-raise, count_below-full}
use atangyldb.Base.First.{First}
use atangyldb.Memory.{
  Bytes, IsBytes, load_int-over, load_int-lt, copy_in-IsBytes, store_int-IsBytes, over-IsBytes,
  offset-IsBytes,
}
use atangyldb.Bitmap.{get_bit, set_bit, next_unsetted_bit}
use atangyldb.Bitmap.Laws.{get_bit-set_bit, set_bit-other_byte}
use atangyldb.Bitmap.Search.{next_unsetted_bit-First}
use atangyldb.Rc.{ok, err, record_nomem}
use atangyldb.RecordPage.{
  page_fix_size, record_num, record_capacity, record_real_size, record_size, bitmap, record_offset,
  place, insert,
}
use atangyldb.RecordPage.Content.{
  occupied, record_byte, IsPage, SameLayout, Quiet, copy_record, copy_record-Quiet,
  copy_record-bytes, flag, flag-header, flag-bytes, SameLayout-trans, SameLayout-offset,
  SameLayout-IsRoomy, record_offset-le,
}

-- A record was put into slot `index` of `m`, which gave `m'`.
pub record Inserted (m : Bytes) (index : ℕ) (source m' : Bytes) : Type 0 where
  pub lowest : First (λ i. not (occupied m i)) 0 (record_capacity m) (some index)
  pub valid : IsPage m'
  pub layout : SameLayout m m'
  pub num : record_num m' ≡ record_num m + 1
  pub slots :
      (j : ℕ) → j < record_capacity m → occupied m' j ≡ (if index == j then true else occupied m j)
  pub content :
      (j k : ℕ)
      → k < record_size m
      → record_byte m' j k
        ≡ (if index == j && ltb k (record_real_size m) then source k else record_byte m j k)

place_lem :
    (m : Bytes) (index : ℕ) (source : Bytes)
    → place m index source
      ≡ copy_record (flag m (set_bit (bitmap m) index) (record_num m + 1)) index source
unfolding place
place_lem m index source =
    rw (load_int-over m page_fix_size (set_bit (bitmap m) index) 0 (omega arith)) refl

module _ (m : Bytes) (page : IsPage m) (source : Bytes) (bytes : IsBytes source) (index : ℕ)
    (lowest : First (λ i. not (occupied m i)) 0 (record_capacity m) (some index)) where
  abbrev flagged : Bytes
  flagged = flag m (set_bit (bitmap m) index) (record_num m + 1)

  abbrev placed : Bytes
  placed = copy_record flagged index source

  was_free : occupied m index ≡ false
  was_free = let e = lowest.2 in ground arith

  header :
      SameLayout m flagged
      × (record_num flagged ≡ record_num m + 1)
      × (bitmap flagged ≡ set_bit (bitmap m) index)
  header =
      let after : ℕ → Bool = λ i. if index == i then true else occupied m i in
      let one_more =
        count_below-raise (record_capacity m) (occupied m) after index lowest.1 was_free
          (λ i l. refl) in
      let few = count_below-le (record_capacity m) after in
      let small = load_int-lt m 4 page.bytes in
      let counted = page.counted in
      flag-header m (set_bit (bitmap m) index) (record_num m + 1) (omega arith)

  quiet : Quiet flagged placed
  quiet =
      copy_record-Quiet flagged index source
        (SameLayout-IsRoomy m flagged header.0 page.after_bitmap)

  layout : SameLayout m placed
  layout = SameLayout-trans header.0 quiet.layout

  slots :
      (j : ℕ)
      → j < record_capacity m
      → occupied placed j ≡ (if index == j then true else occupied m j)
  slots j lt =
      quiet.bits j (rw header.0.capacity lt)
      ∙ ap (λ b. get_bit b j) header.2
      ∙ (get_bit-set_bit (bitmap m) index j (offset-IsBytes m page_fix_size page.bytes)).0

  content :
      (j k : ℕ)
      → k < record_size m
      → record_byte placed j k
        ≡ (if index == j && ltb k (record_real_size m) then source k else record_byte m j k)
  content j k lt =
      let here = SameLayout-offset flagged placed j quiet.layout in
      let there = SameLayout-offset m flagged j header.0 in
      let written =
        copy_record-bytes flagged index j source k
          (rw (header.0.real_size, header.0.size) page.real) (rw header.0.size lt) in
      let kept =
        flag-bytes m (set_bit (bitmap m) index) (record_num m + 1) index (record_offset m j + k)
          page.after_bitmap lowest.1 (λ i. set_bit-other_byte (bitmap m) index i)
          (record_offset-le m j k) in
      ap (λ o. placed (o + k)) here ∙ written ∙ rw (header.0.real_size, there, kept)

  placed-Inserted : Inserted m index source placed
  placed-Inserted = record {
    lowest = lowest;
    valid = record {
      bytes =
          copy_in-IsBytes _ _ source _
            (store_int-IsBytes _ 0 _ (
              over-IsBytes m page_fix_size _ page.bytes
                (get_bit-set_bit (bitmap m) index 0 (offset-IsBytes m page_fix_size page.bytes)).1))
            bytes;
      real = rw (layout.real_size, layout.size) page.real;
      after_bitmap = SameLayout-IsRoomy m placed layout page.after_bitmap;
      counted =
          let raised =
            count_below-raise (record_capacity m) (occupied m) (occupied placed) index lowest.1
              was_free slots in
          rw layout.capacity (omega (arith, quiet.num, header.1, page.counted, raised));
    };
    layout = layout;
    num = quiet.num ∙ header.1;
    slots = slots;
    content = content;
  }

insert_test :
    (m : Bytes) → record_num m ≢ record_capacity m → (record_num m == record_capacity m) ≡ false
insert_test m h = ground arith

-- Below its capacity a valid page takes the record into the lowest free slot: exactly that slot
-- becomes occupied, the count grows by one, the record's bytes are stored, no byte of any other
-- slot changes, and the page stays valid. The search never fails there.
pub insert-Inserted :
    (m : Bytes)
    → IsPage m
    → (source : Bytes) → IsBytes source
    → record_num m ≢ record_capacity m
    → (index : ℕ) × (m' : Bytes) × (insert m source ≡ (ok index, m')) × Inserted m index source m'
unfolding insert
insert-Inserted m page source bytes room =
    let found = next_unsetted_bit-First (bitmap m) (record_capacity m) 0 (omega arith) (inl refl) in
    elim (Option-cases (next_unsetted_bit (bitmap m) (record_capacity m) 0)) [
      | inl e ↦
          absurd (
            room (page.counted ∙ count_below-full (record_capacity m) (occupied m) (rw e at found)))
      | inr (index, e) ↦ (
        index,
        place m index source,
        rw (insert_test m room, e),
        rw place_lem (placed-Inserted m page source bytes index (rw e at found)),
      )
    ]

-- A page at its capacity refuses the record and is left as it was.
pub insert_full :
    (m source : Bytes) → record_num m ≡ record_capacity m → insert m source ≡ (err record_nomem, m)
unfolding insert
insert_full m source e = rw (e, ==-self)
