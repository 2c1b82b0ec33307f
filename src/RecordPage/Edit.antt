-- ===== src/RecordPage/Edit.antt =====
-- `delete_record` and `update_record` of record_manager.cpp against the slots and records of a page.
use atangyldb.Base.{
  ℕ, ◌+◌, ◌-◌, ◌%◌, ◌^◌, ◌≤◌, ◌<◌, ◌≡◌, ◌∙◌, refl, sym, ap, true, false, ◌&&◌, if◌then◌else◌, ◌==◌,
  arith, ltb, leb,
}
use atangyldb.Base.Count.{count_below, count_below-drop, count_below-congr}
use atangyldb.Memory.{
  Bytes, IsBytes, load_int-over, load_int-lt, copy_in-IsBytes, store_int-IsBytes, over-IsBytes,
  offset-IsBytes,
}
use atangyldb.Bitmap.{get_bit, clear_bit}
use atangyldb.Bitmap.Laws.{get_bit-clear_bit, clear_bit-other_byte}
use atangyldb.Rc.{ok, err, invalid_argument, record_record_not_exist}
use atangyldb.RecordPage.{
  page_fix_size, record_num, record_capacity, record_real_size, record_size, bitmap, record_offset,
  vacate, delete, update,
}
use atangyldb.RecordPage.Content.{
  occupied, record_byte, IsPage, SameLayout, Quiet, copy_record, copy_record-Quiet,
  copy_record-bytes, flag, flag-header, flag-bytes, SameLayout-offset, SameLayout-IsRoomy,
  record_offset-le,
}

-- The record in `slot` was taken out of `m`, which gave `m'`.
pub record Deleted (m : Bytes) (slot : ℕ) (m' : Bytes) : Type 0 where
  pub valid : IsPage m'
  pub layout : SameLayout m m'
  pub num : record_num m' + 1 ≡ record_num m
  pub slots :
      (j : ℕ) → j < record_capacity m → occupied m' j ≡ (if slot == j then false else occupied m j)
  pub content : (j k : ℕ) → record_byte m' j k ≡ record_byte m j k

-- The record in `slot` of `m` was overwritten, which gave `m'`.
pub record Updated (m : Bytes) (slot : ℕ) (source m' : Bytes) : Type 0 where
  pub valid : IsPage m'
  pub layout : SameLayout m m'
  pub num : record_num m' ≡ record_num m
  pub slots : (j : ℕ) → j < record_capacity m → occupied m' j ≡ occupied m j
  pub content :
      (j k : ℕ)
      → k < record_size m
      → record_byte m' j k
        ≡ (if slot == j && ltb k (record_real_size m) then source k else record_byte m j k)

module _ (m : Bytes) (page : IsPage m) (slot : ℕ) (lt : slot < record_capacity m) where
  module _ (was : occupied m slot ≡ true) where
    abbrev emptied : Bytes
    emptied = flag m (clear_bit (bitmap m) slot) (record_num m - 1)

    fewer :
        count_below (record_capacity m) (λ i. if slot == i then false else occupied m i) + 1
        ≡ record_num m
    fewer =
        count_below-drop (record_capacity m) (occupied m) _ slot lt was (λ i l. refl)
        ∙ sym page.counted

    vacate_lem : vacate m slot ≡ emptied
    unfolding vacate
    vacate_lem =
        let one = fewer in
        let small = load_int-lt m 0 page.bytes in
        let e : (record_num m + 2 ^ 32 - 1) % 2 ^ 32 ≡ record_num m - 1 = omega arith in
        rw (load_int-over m page_fix_size (clear_bit (bitmap m) slot) 0 (omega arith), e) refl

    header :
        SameLayout m emptied
        × (record_num emptied ≡ record_num m - 1)
        × (bitmap emptied ≡ clear_bit (bitmap m) slot)
    header =
        let small = load_int-lt m 0 page.bytes in
        flag-header m (clear_bit (bitmap m) slot) (record_num m - 1) (omega arith)

    slots :
        (j : ℕ)
        → j < record_capacity m
        → occupied emptied j ≡ (if slot == j then false else occupied m j)
    slots j l =
        ap (λ b. get_bit b j) header.2
        ∙ (get_bit-clear_bit (bitmap m) slot j (offset-IsBytes m page_fix_size page.bytes)).0

    emptied-Deleted : Deleted m slot emptied
    emptied-Deleted = record {
      valid = record {
        bytes = store_int-IsBytes _ 0 _ (
            over-IsBytes m page_fix_size _ page.bytes
              (get_bit-clear_bit (bitmap m) slot 0 (offset-IsBytes m page_fix_size page.bytes)).1);
        real = rw (header.0.real_size, header.0.size) page.real;
        after_bitmap = SameLayout-IsRoomy m emptied header.0 page.after_bitmap;
        counted =
            let same = count_below-congr (record_capacity m) (occupied emptied) _ slots in
            rw header.0.capacity (omega (arith, header.1, fewer, same));
      };
      layout = header.0;
      num = omega (arith, header.1, fewer);
      slots = slots;
      content = λ j k.
          ap (λ o. emptied (o + k)) (SameLayout-offset m emptied j header.0)
          ∙ flag-bytes m (clear_bit (bitmap m) slot) (record_num m - 1) slot (record_offset m j + k)
              page.after_bitmap lt (λ i. clear_bit-other_byte (bitmap m) slot i)
              (record_offset-le m j k);
    }

  module _ (source : Bytes) (bytes : IsBytes source) where
    abbrev written : Bytes
    written = copy_record m slot source

    quiet : Quiet m written
    quiet = copy_record-Quiet m slot source page.after_bitmap

    written-Updated : Updated m slot source written
    written-Updated = record {
      valid = record {
        bytes = copy_in-IsBytes _ _ source _ page.bytes bytes;
        real = rw (quiet.layout.real_size, quiet.layout.size) page.real;
        after_bitmap = SameLayout-IsRoomy m written quiet.layout page.after_bitmap;
        counted =
            let same =
              count_below-congr (record_capacity m) (occupied written) (occupied m) quiet.bits in
            rw quiet.layout.capacity (omega (arith, quiet.num, same, page.counted));
      };
      layout = quiet.layout;
      num = quiet.num;
      slots = quiet.bits;
      content = λ j k l.
          ap (λ o. written (o + k)) (SameLayout-offset m written j quiet.layout)
          ∙ copy_record-bytes m slot j source k page.real l;
    }

below : {slot capacity : ℕ} → slot < capacity → leb capacity slot ≡ false
below h = ground arith

-- Deleting from a valid page: a slot past the capacity and a free slot are refused with their
-- codes and change nothing; an occupied slot becomes free, the count falls by one, no other slot
-- and no byte of any record changes, and the page stays valid.
pub delete-Deleted :
    (m : Bytes) (slot : ℕ)
    → IsPage m
    → (record_capacity m ≤ slot → delete m slot ≡ (err invalid_argument, m))
      × (slot < record_capacity m
          → occupied m slot ≡ false
          → delete m slot ≡ (err record_record_not_exist, m))
      × (slot < record_capacity m
          → occupied m slot ≡ true
          → (m' : Bytes) × (delete m slot ≡ (ok tt, m')) × Deleted m slot m')
unfolding delete
delete-Deleted m slot page = (
  λ h. ground arith,
  λ h e. ground arith,
  λ h e. (
    emptied m page slot h e,
    rw (below h, e) (ap (λ (b : Bytes). (ok tt, b)) (vacate_lem m page slot h e)),
    emptied-Deleted m page slot h e,
  ),
)

-- Updating a record of a valid page: a slot past the capacity and a free slot are refused with
-- their codes and change nothing; an occupied slot holds the new bytes, no byte of another slot
-- changes, the same slots are occupied, and the page stays valid.
pub update-Updated :
    (m : Bytes) (slot : ℕ) (source : Bytes)
    → IsPage m
    → IsBytes source
    → (record_capacity m ≤ slot → update m slot source ≡ (err invalid_argument, m))
      × (slot < record_capacity m
          → occupied m slot ≡ false
          → update m slot source ≡ (err record_record_not_exist, m))
      × (slot < record_capacity m
          → occupied m slot ≡ true
          → (m' : Bytes) × (update m slot source ≡ (ok tt, m')) × Updated m slot source m')
unfolding update
update-Updated m slot source page bytes = (
  λ h. ground arith,
  λ h e. ground arith,
  λ h e. (
    written m page slot h source bytes,
    rw (below h, e) refl,
    written-Updated m page slot h source bytes,
  ),
)
