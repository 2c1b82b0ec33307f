-- ===== src/RecordPage/Read.antt =====
-- `get_record` and the page scan `get_first_record`/`get_next_record` of record_manager.cpp.
use atangyldb.Base.{
  ℕ, ◌+◌, ◌*◌, ◌/◌, ◌%◌, ◌≤◌, ◌<◌, ◌≡◌, ◌≢◌, ◌∙◌, refl, ap, ◌⊎◌, inl, inr, true, false, Option,
  none, some, if◌then◌else◌, ◌==◌, arith, leb, Bool-cases, Option-cases, ==-self,
}
use native.Mathlib.Nat.{le_trans}
use atangyldb.Base.First.{First}
use atangyldb.Base.Bits.{test_bit, test_bit-zero, test_bit-none}
use atangyldb.Memory.{Bytes, IsBytes, offset-IsBytes}
use atangyldb.Bitmap.{get_bit, next_setted_bit}
use atangyldb.Bitmap.Search.{next_setted_bit-First, next_setted_bit-skips}
use atangyldb.Rc.{Result, ok, err, record_invalidrid, record_record_not_exist, record_eof}
use atangyldb.RecordPage.{
  page_fix_size, record_num, record_capacity, record_real_size, bitmap, record_offset, insert, get,
  next, following, delete,
}
use atangyldb.RecordPage.Content.{occupied, IsPage}
use atangyldb.RecordPage.Insert.{insert-Inserted, insert_full}
use atangyldb.RecordPage.Edit.{Deleted, delete-Deleted}

-- `get_record` answers with the record's address exactly for an occupied slot of the page, and
-- tells a slot past the capacity from a free one.
pub get_cases :
    (m : Bytes) (slot : ℕ)
    → (record_capacity m ≤ slot → get m slot ≡ err record_invalidrid)
      × (slot < record_capacity m
          → occupied m slot ≡ false
          → get m slot ≡ err record_record_not_exist)
      × (slot < record_capacity m → occupied m slot ≡ true → get m slot ≡ ok (record_offset m slot))
unfolding get
get_cases m slot = (λ h. ground arith, λ h e. ground arith, λ h e. ground arith)

-- A record that `insert_record` took is read back by `get_record` at the slot that it returned, byte
-- for byte.
pub get-insert :
    (m source m' : Bytes) (index : ℕ)
    → IsPage m
    → IsBytes source
    → insert m source ≡ (ok index, m')
    → (a : ℕ) × (get m' index ≡ ok a) × ((k : ℕ) → k < record_real_size m → m' (a + k) ≡ source k)
get-insert m source m' index page bytes e = elim (Bool-cases (record_num m == record_capacity m)) [
  | inl full ↦ let refused = insert_full m source (ground arith) in absurd (cc)
  | inr room ↦
      let (i, m'', done, ins) = insert-Inserted m page source bytes (ground arith) in
      let same : index ≡ i = cc in
      let page' : m' ≡ m'' = cc in
      let slot = ins.slots i ins.lowest.1 in
      let here : occupied m'' i ≡ true = slot ∙ rw ==-self in
      (
        record_offset m'' i,
        rw (same, page') ((get_cases m'' i).2 (rw ins.layout.capacity ins.lowest.1) here),
        λ k lt. rw page' (ins.content i k (le_trans lt page.real) ∙ rw ==-self (ground arith)),
      )
]

deleted :
    (m m' : Bytes) (slot : ℕ)
    → IsPage m
    → delete m slot ≡ (ok tt, m')
    → (slot < record_capacity m) × (occupied m slot ≡ true) × Deleted m slot m'
deleted m m' slot page e =
    let (past, free, there) = delete-Deleted m slot page in
    elim (Bool-cases (leb (record_capacity m) slot)) [
      | inl out ↦ let refused = past (ground arith) in absurd (cc)
      | inr inside ↦ elim (Bool-cases (occupied m slot)) [
        | inr empty ↦ let refused = free (ground arith) empty in absurd (cc)
        | inl held ↦
            let (m'', done, gone) = there (ground arith) held in
            let page' : m' ≡ m'' = cc in (ground arith, held, rw page' gone)
      ]
    ]

-- A record that `delete_record` took out is gone for `get_record`.
pub get-delete :
    (m m' : Bytes) (slot : ℕ)
    → IsPage m
    → delete m slot ≡ (ok tt, m')
    → get m' slot ≡ err record_record_not_exist
get-delete m m' slot page e =
    let (lt, held, gone) = deleted m m' slot page e in
    let slot_free : occupied m' slot ≡ false = gone.slots slot lt ∙ rw ==-self in
    (get_cases m' slot).1 (rw gone.layout.capacity lt) slot_free

-- The record after which a scan goes on is still there.
abbrev pub IsSettled : Bytes → Option ℕ → Type 0
IsSettled m none = Unit {0}
IsSettled m (some slot) = occupied m slot ≡ true

abbrev pub found_or_eof : Option ℕ → Result ℕ
found_or_eof none = err record_eof
found_or_eof (some slot) = ok slot

settled_byte :
    (m : Bytes) (after : Option ℕ)
    → IsSettled m after
    → (following after % 8 ≡ 0) ⊎ (bitmap m (following after / 8) ≢ 0)
unfolding get_bit
settled_byte m none s = inl refl
settled_byte m (some slot) s = elim (Bool-cases ((slot + 1) % 8 == 0)) [
  | inl opens ↦ inl (ground arith)
  | inr inside ↦ inr λ z.
      let q : slot / 8 ≡ (slot + 1) / 8 = ground arith in
      let zero_byte : bitmap m (slot / 8) ≡ 0 = rw q z in
      let clear = test_bit-zero (slot % 8) (omega arith) in
      let set : test_bit 0 (slot % 8) ≡ true = rw zero_byte at s in cc
]

-- A step of a scan that stands at the start, or at a record that is still there, goes to the next
-- occupied slot, and ends with RECORD_EOF exactly when there is none.
pub next-First :
    (m : Bytes) (after : Option ℕ)
    → IsSettled m after
    → (r : Option ℕ) × (next m after ≡ found_or_eof r)
      × First (occupied m) (following after) (record_capacity m) r
unfolding next
next-First m after settled = elim (Bool-cases (leb (record_capacity m) (following after))) [
  | inl past ↦ (none, rw past, λ j a b. absurd (ground arith))
  | inr inside ↦
      let first =
        next_setted_bit-First (bitmap m) (record_capacity m) (following after) (ground arith)
          (settled_byte m after settled) in
      elim (Option-cases (next_setted_bit (bitmap m) (record_capacity m) (following after))) [
        | inl e ↦ (none, rw (inside, e), rw e at first)
        | inr (k, e) ↦ (some k, rw (inside, e), rw e at first)
      ]
]

byte_cleared :
    (m : Bytes) (q : ℕ)
    → IsBytes m
    → ((i : ℕ) → i < 8 → occupied m (q * 8 + i) ≡ false)
    → bitmap m q ≡ 0
unfolding get_bit
byte_cleared m q bytes clear =
    test_bit-none (bitmap m q) (offset-IsBytes m page_fix_size bytes q) λ i lt.
      let a : (q * 8 + i) / 8 ≡ q = omega arith in
      let b : (q * 8 + i) % 8 ≡ i = omega arith in rw (a, b) at (clear i lt)

only_bit :
    (m : Bytes) (slot i : ℕ)
    → i < 8
    → ((i : ℕ) → i < 8 → i ≢ slot % 8 → occupied m (slot / 8 * 8 + i) ≡ false)
    → (if slot == slot / 8 * 8 + i then false else occupied m (slot / 8 * 8 + i)) ≡ false
only_bit m slot i lt alone = elim (Bool-cases (slot == slot / 8 * 8 + i)) [
  | inl here ↦ rw here refl
  | inr other ↦ rw other (alone i lt (ground arith))
]

-- A scan that deletes as it goes can miss records: when the record at which it stands was the only
-- one in its full byte of the bitmap, and not in the last place there, the step after the deletion
-- returns no slot up to eight places further, whether or not those slots are occupied.
pub next-delete_skips :
    (m m' : Bytes) (slot : ℕ)
    → IsPage m
    → slot / 8 * 8 + 8 ≤ record_capacity m
    → ((i : ℕ) → i < 8 → i ≢ slot % 8 → occupied m (slot / 8 * 8 + i) ≡ false)
    → slot % 8 ≢ 7
    → delete m slot ≡ (ok tt, m')
    → (k : ℕ) → k ≤ slot + 8
    → next m' (some slot) ≢ ok k
unfolding next
next-delete_skips m m' slot page whole alone place e k le hit =
    let (lt, held, gone) = deleted m m' slot page e in
    let q : ℕ = slot / 8 in
    let cleared : (i : ℕ) → i < 8 → occupied m' (q * 8 + i) ≡ false =
      λ i l. gone.slots (q * 8 + i) (omega arith) ∙ only_bit m slot i l alone in
    let z = byte_cleared m' q gone.valid.bytes cleared in
    let same : (slot + 1) / 8 ≡ q = omega arith in
    elim (Bool-cases (leb (record_capacity m') (slot + 1))) [
      | inl past ↦ let stop : err record_eof ≡ ok k = rw past at hit in cc
      | inr inside ↦
          elim (Option-cases (next_setted_bit (bitmap m') (record_capacity m') (slot + 1))) [
            | inl none_left ↦ let stop : err record_eof ≡ ok k = rw (inside, none_left) at hit in cc
            | inr (j, found) ↦
                let stop : ok j ≡ ok k = rw (inside, found) at hit in
                let j' : j ≡ k = cc in
                next_setted_bit-skips (bitmap m') (record_capacity m') (slot + 1) (ground arith)
                  (rw same z) k (omega arith) (found ∙ ap some j')
          ]
    ]
