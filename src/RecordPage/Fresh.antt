-- ===== src/RecordPage/Fresh.antt =====
-- The empty page that `init_empty_page` of record_manager.cpp writes.
use atangyldb.Base.{ℕ, ◌+◌, ◌%◌, ◌^◌, ◌≤◌, ◌<◌, ◌≡◌, ◌∙◌, sym, ap, inl, false, arith}
use atangyldb.Base.Bits.{test_bit-zero}
use atangyldb.Base.Count.{count_below-none}
use atangyldb.Memory.{
  Bytes, IsBytes, load_int, store_int, fill, offset, load_int-store_int, load_int-store_int_apart,
  load_int-fill, store_int-IsBytes, fill-IsBytes,
}
use atangyldb.Bitmap.{get_bit}
use atangyldb.RecordPage.{
  page_fix_size, page_data_size, record_num, record_capacity, record_real_size, record_size,
  first_record_offset, format_page, align8, page_record_capacity, page_header_size,
  page_bitmap_size,
}
use atangyldb.RecordPage.Content.{occupied, IsPage, bit_before_records}
use atangyldb.RecordPage.Layout.{align8-bounds, page_header_size-bounds, header-small}

-- The page that `init_empty_page` leaves.
pub record Fresh (wanted : ℕ) (m : Bytes) : Type 0 where
  pub valid : IsPage m
  pub num : record_num m ≡ 0
  pub capacity : record_capacity m ≡ page_record_capacity page_data_size (align8 wanted)
  pub real_size : record_real_size m ≡ wanted
  pub size : record_size m ≡ align8 wanted
  pub first : first_record_offset m ≡ page_header_size (record_capacity m)
  pub free : (j : ℕ) → j < record_capacity m → occupied m j ≡ false

-- The five stores of the header, read back.
abbrev with_header : Bytes → ℕ → ℕ → ℕ → ℕ → ℕ → Bytes
with_header m a b c d e =
    store_int (store_int (store_int (store_int (store_int m 0 a) 4 b) 8 c) 12 d) 16 e

apart : (m : Bytes) (off v o : ℕ) → o + 4 ≤ off → load_int (store_int m off v) o ≡ load_int m o
apart m off v o h = load_int-store_int_apart m off v o (inl h)

header_fields :
    (m : Bytes) (a b c d e : ℕ)
    → a < 2 ^ 32
    → b < 2 ^ 32
    → c < 2 ^ 32
    → d < 2 ^ 32
    → e < 2 ^ 32
    → let h = with_header m a b c d e in
      (load_int h 0 ≡ a)
      × (load_int h 4 ≡ b)
      × (load_int h 8 ≡ c)
      × (load_int h 12 ≡ d)
      × (load_int h 16 ≡ e)
header_fields m a b c d e la lb lc ld le =
    let m₁ = store_int m 0 a in
    let m₂ = store_int m₁ 4 b in
    let m₃ = store_int m₂ 8 c in
    let m₄ = store_int m₃ 12 d in
    (
      apart m₄ 16 e 0 (omega arith)
          ∙ apart m₃ 12 d 0 (omega arith)
          ∙ apart m₂ 8 c 0 (omega arith)
          ∙ apart m₁ 4 b 0 (omega arith)
          ∙ load_int-store_int m 0 a la,
      apart m₄ 16 e 4 (omega arith)
          ∙ apart m₃ 12 d 4 (omega arith)
          ∙ apart m₂ 8 c 4 (omega arith)
          ∙ load_int-store_int m₁ 4 b lb,
      apart m₄ 16 e 8 (omega arith) ∙ apart m₃ 12 d 8 (omega arith) ∙ load_int-store_int m₂ 8 c lc,
      apart m₄ 16 e 12 (omega arith) ∙ load_int-store_int m₃ 12 d ld,
      load_int-store_int m₄ 16 e le,
    )

fill_free :
    (h : Bytes) (capacity j : ℕ)
    → j < capacity
    → occupied (fill h page_fix_size 0 (page_bitmap_size capacity)) j ≡ false
unfolding get_bit offset fill
fill_free h capacity j lt =
    let inside = bit_before_records capacity j lt in
    let clear = test_bit-zero (j % 8) (omega arith) in ground arith

-- `init_empty_page` leaves a valid page with no record, whatever the bytes were before; its slots
-- have the size of a record rounded up to a multiple of 8.
pub format_page-Fresh :
    (m : Bytes) (size : ℕ) → IsBytes m → size + 8 < 2 ^ 32 → Fresh size (format_page m size)
unfolding format_page
format_page-Fresh m size bytes lt =
    let phy : ℕ = align8 size in
    let c : ℕ = page_record_capacity page_data_size phy in
    let bounds = align8-bounds size in
    let room = page_header_size-bounds c in
    let (cs, hs) = header-small phy in
    let (n, cap, real, sz, first) =
      header_fields m 0 c size phy (page_header_size c) (omega arith) (omega arith) (omega arith)
        (omega arith) (omega arith) in
    let h : Bytes = with_header m 0 c size phy (page_header_size c) in
    let keep : (o : ℕ) → o + 4 ≤ 20 → load_int (format_page m size) o ≡ load_int h o =
      λ o l. load_int-fill h 20 0 (page_bitmap_size c) o l in
    let capacity = keep 4 (omega arith) ∙ cap in
    let free : (j : ℕ)
        → j < record_capacity (format_page m size)
        → occupied (format_page m size) j ≡ false =
      λ j l. fill_free h c j (rw capacity at l) in
    record {
      valid = record {
        bytes = fill-IsBytes h 20 0 _ (omega arith) (
            store_int-IsBytes _ 16 _ (
              store_int-IsBytes _ 12 _ (
                store_int-IsBytes _ 8 _
                  (store_int-IsBytes _ 4 _ (store_int-IsBytes m 0 _ bytes)))));
        real = rw (keep 8 (omega arith), keep 12 (omega arith), real, sz) bounds.0;
        after_bitmap = rw (capacity, keep 16 (omega arith), first) room.1;
        counted = keep 0 (omega arith) ∙ n ∙ sym (count_below-none _ _ (λ j a b. free j b));
      };
      num = keep 0 (omega arith) ∙ n;
      capacity = capacity;
      real_size = keep 8 (omega arith) ∙ real;
      size = keep 12 (omega arith) ∙ sz;
      first = keep 16 (omega arith) ∙ first ∙ ap page_header_size (sym capacity);
      free = free;
    }
