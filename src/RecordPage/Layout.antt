-- ===== src/RecordPage/Layout.antt =====
-- Whether the slots that the layout of record_manager.cpp hands out fit into the page.
use atangyldb.Base.{
  ℕ, ◌+◌, ◌*◌, ◌/◌, ◌%◌, ◌≤◌, ◌<◌, ◌≡◌, refl, Bool, true, ◌||◌, leb, ltb, arith, ◌-◌, Bool-cases,
  inl, inr,
}
use native.Mathlib.Nat.{div-eq_of_lt, div-le_self}
use atangyldb.Base.Tests.{all_below, all_below_at}
use atangyldb.RecordPage.{
  page_data_size, page_fix_size, align8, page_record_capacity, page_bitmap_size, page_header_size,
}

-- The first byte after the last slot of a page for records of a given physical size.
abbrev pub page_end : ℕ → ℕ
page_end phy =
    let capacity = page_record_capacity page_data_size phy in
    page_header_size capacity + capacity * phy

fits_case : ℕ → Bool
unfolding page_record_capacity page_header_size
fits_case k = ltb k 2 || leb (page_end (8 * k)) page_data_size

fits_table : all_below 512 fits_case ≡ true
unfolding all_below fits_case
fits_table = refl

-- `align8` rounds up to a multiple of 8.
pub align8-bounds : (n : ℕ) → (n ≤ align8 n) × (align8 n < n + 8) × (align8 n % 8 ≡ 0)
unfolding align8
align8-bounds n = (ground arith, ground arith, ground arith)

-- The bitmap has a bit for each slot, and ends where the records begin at the latest.
pub page_header_size-bounds :
    (capacity : ℕ)
    → (capacity ≤ page_bitmap_size capacity * 8)
      × (page_fix_size + page_bitmap_size capacity ≤ page_header_size capacity)
unfolding page_header_size
page_header_size-bounds c = (ground arith, ground arith)

page_end-small : (k : ℕ) → 1 < k → k < 512 → page_end (8 * k) ≤ page_data_size
unfolding fits_case
page_end-small k a b = let h = all_below_at 512 fits_case k fits_table b in ground arith

page_end-large : (phy : ℕ) → 4096 ≤ phy → page_end phy ≤ page_data_size
unfolding page_record_capacity page_header_size
page_end-large phy h =
    let none_fit : 8 * (page_data_size - page_fix_size - 1) / (8 * phy + 1) ≡ 0 =
      div-eq_of_lt (omega arith) in
    rw none_fit (omega arith)

-- A page for records of more than 8 bytes has room for all of its slots.
pub page_end-fits : (size : ℕ) → 8 < size → page_end (align8 size) ≤ page_data_size
page_end-fits size h =
    let bounds = align8-bounds size in
    let k : ℕ = align8 size / 8 in
    let whole : align8 size ≡ 8 * k = omega arith in
    elim (Bool-cases (ltb k 512)) [
      | inl small ↦ rw whole (page_end-small k (omega arith) (ground arith))
      | inr large ↦ page_end-large (align8 size) (ground arith)
    ]

pub header-small :
    (phy : ℕ)
    → (page_record_capacity page_data_size phy ≤ 32568)
      × (page_header_size (page_record_capacity page_data_size phy) ≤ 4112)
unfolding page_record_capacity page_header_size
header-small phy =
    let few : 32568 / (8 * phy + 1) ≤ 32568 = div-le_self 32568 (8 * phy + 1) in
    (omega arith, ground arith)
