-- ===== src/RecordPage/Content.antt =====
-- What a page of record_manager.cpp holds: occupied slots and the bytes of their records, the
-- invariant of the page, and how the primitive writes look through header and bitmap.
use atangyldb.Base.{
  ℕ, ◌+◌, ◌-◌, ◌*◌, ◌/◌, ◌^◌, ◌≤◌, ◌<◌, ◌≡◌, ap, inl, inr, Bool, if◌then◌else◌, ◌==◌, arith, ltb,
  Bool-cases, ◌≢◌, ◌∙◌, ◌&&◌,
}
use atangyldb.Base.Count.{count_below}
use atangyldb.Memory.{
  Bytes, IsBytes, store_int, copy_in, offset, over, load_int-copy_in, load_int-over,
  load_int-store_int, load_int-store_int_apart, offset-store_int, offset-over,
}
use atangyldb.Bitmap.{get_bit}
use atangyldb.RecordPage.{
  page_fix_size, record_num, record_capacity, record_real_size, record_size, first_record_offset,
  bitmap, record_offset, page_bitmap_size,
}

-- Whether a slot holds a record.
abbrev pub occupied : Bytes → ℕ → Bool
occupied m slot = get_bit (bitmap m) slot

-- Byte `k` of the record in a slot.
abbrev pub record_byte : Bytes → ℕ → ℕ → ℕ
record_byte m slot k = m (record_offset m slot + k)

-- The bitmap lies between header and records, a record fits into its slot, and the header counts
-- the bits that are set.
pub record IsPage (m : Bytes) : Type 0 where
  pub bytes : IsBytes m
  pub real : record_real_size m ≤ record_size m
  pub after_bitmap : page_fix_size + page_bitmap_size (record_capacity m) ≤ first_record_offset m
  pub counted : record_num m ≡ count_below (record_capacity m) (occupied m)

-- The four fields of the header that no operation on records writes.
pub record SameLayout (m m' : Bytes) : Type 0 where
  pub capacity : record_capacity m' ≡ record_capacity m
  pub real_size : record_real_size m' ≡ record_real_size m
  pub size : record_size m' ≡ record_size m
  pub first : first_record_offset m' ≡ first_record_offset m

-- The byte that holds the bit of a slot lies before the records.
pub bit_before_records :
    (capacity slot : ℕ) → slot < capacity → slot / 8 < page_bitmap_size capacity
unfolding page_bitmap_size
bit_before_records capacity slot h = ground arith

-- Two slots do not overlap.
pub slots_apart : (i j s k : ℕ) → i < j → k < s → i * s + k < j * s
slots_apart i j s k h l = grind arith

-- Header and bitmap fit before the records.
abbrev pub IsRoomy : Bytes → Type 0
IsRoomy m = page_fix_size + page_bitmap_size (record_capacity m) ≤ first_record_offset m

-- The write of a record into a slot.
abbrev pub copy_record : Bytes → ℕ → Bytes → Bytes
copy_record m slot source = copy_in m (record_offset m slot) source (record_real_size m)

-- It leaves header and bitmap alone.
pub record Quiet (m m' : Bytes) : Type 0 where
  pub layout : SameLayout m m'
  pub num : record_num m' ≡ record_num m
  pub bits : (j : ℕ) → j < record_capacity m → occupied m' j ≡ occupied m j

pub copy_record-Quiet :
    (m : Bytes) (slot : ℕ) (source : Bytes) → IsRoomy m → Quiet m (copy_record m slot source)
unfolding get_bit offset copy_in
copy_record-Quiet m slot source room = record {
  layout = record {
    capacity = load_int-copy_in m _ source _ 4 (omega arith);
    real_size = load_int-copy_in m _ source _ 8 (omega arith);
    size = load_int-copy_in m _ source _ 12 (omega arith);
    first = load_int-copy_in m _ source _ 16 (omega arith);
  };
  num = load_int-copy_in m _ source _ 0 (omega arith);
  bits = λ j lt. let b = bit_before_records (record_capacity m) j lt in ground arith;
}

-- It writes the record, and no byte of another slot.
pub copy_record-bytes :
    (m : Bytes) (slot j : ℕ) (source : Bytes) (k : ℕ)
    → record_real_size m ≤ record_size m
    → k < record_size m
    → copy_record m slot source (record_offset m j + k)
      ≡ (if slot == j && ltb k (record_real_size m) then source k else record_byte m j k)
unfolding copy_in
copy_record-bytes m slot j source k real lt = elim (Bool-cases (slot == j)) [
  | inl same ↦ let e : slot ≡ j = ground arith in rw e (ground arith)
  | inr other ↦ elim (Bool-cases (ltb slot j)) [
    | inl before ↦
        let gap = slots_apart slot j (record_size m) (record_real_size m - 1) (ground arith) in
        ground arith
    | inr behind ↦ let gap = slots_apart j slot (record_size m) k (ground arith) lt in ground arith
  ]
]

-- The write of the bitmap and of the number of records.
abbrev pub flag : Bytes → Bytes → ℕ → Bytes
flag m bits num = store_int (over m page_fix_size bits) 0 num

pub flag-header :
    (m bits : Bytes) (num : ℕ)
    → num < 2 ^ 32
    → SameLayout m (flag m bits num)
      × (record_num (flag m bits num) ≡ num)
      × (bitmap (flag m bits num) ≡ bits)
flag-header m bits num lt = (
  record {
    capacity =
        load_int-store_int_apart _ 0 num 4 (inr (omega arith))
        ∙ load_int-over m _ bits 4 (omega arith);
    real_size =
        load_int-store_int_apart _ 0 num 8 (inr (omega arith))
        ∙ load_int-over m _ bits 8 (omega arith);
    size =
        load_int-store_int_apart _ 0 num 12 (inr (omega arith))
        ∙ load_int-over m _ bits 12 (omega arith);
    first =
        load_int-store_int_apart _ 0 num 16 (inr (omega arith))
        ∙ load_int-over m _ bits 16 (omega arith);
  },
  load_int-store_int _ 0 num lt,
  offset-store_int (over m page_fix_size bits) 0 num page_fix_size (omega arith)
      ∙ offset-over m page_fix_size bits,
)

-- Records are not touched if the bitmap changes only in the byte of one of its bits.
pub flag-bytes :
    (m bits : Bytes) (num slot a : ℕ)
    → IsRoomy m
    → slot < record_capacity m
    → ((i : ℕ) → i ≢ slot / 8 → bits i ≡ bitmap m i)
    → first_record_offset m ≤ a
    → flag m bits num a ≡ m a
unfolding store_int over offset
flag-bytes m bits num slot a room lt same le =
    let b = bit_before_records (record_capacity m) slot lt in
    let e = same (a - page_fix_size) (omega arith) in
    let f : page_fix_size + (a - page_fix_size) ≡ a = omega arith in
    let g : m (page_fix_size + (a - page_fix_size)) ≡ m a = ap m f in ground arith

pub SameLayout-trans : {a b c : Bytes} → SameLayout a b → SameLayout b c → SameLayout a c
SameLayout-trans p q = record {
  capacity = q.capacity ∙ p.capacity;
  real_size = q.real_size ∙ p.real_size;
  size = q.size ∙ p.size;
  first = q.first ∙ p.first;
}

-- Records start at the same place.
pub SameLayout-offset :
    (m m' : Bytes) (j : ℕ) → SameLayout m m' → record_offset m' j ≡ record_offset m j
SameLayout-offset m m' j s = let a = s.first in let b = s.size in cc

pub SameLayout-IsRoomy : (m m' : Bytes) → SameLayout m m' → IsRoomy m → IsRoomy m'
SameLayout-IsRoomy m m' s r = rw (s.capacity, s.first) r

pub record_offset-le : (m : Bytes) (j k : ℕ) → first_record_offset m ≤ record_offset m j + k
record_offset-le m j k = omega arith
