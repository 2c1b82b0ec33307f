-- ===== src/RecordFile/Scanner.antt =====
-- RecordFileScanner of storage/common/record_manager.cpp: the records of a file, in the order of pages
-- and slots.
pub mod InPage
use atangyldb.Base.{
  ℕ, zero, suc, ◌+◌, ◌-◌, Bool, true, false, not, Option, none, some, if◌then◌else◌, ◌==◌,
}
use atangyldb.Memory.{Bytes, offset}
use atangyldb.Rc.{
  Rc, Result, ok, err, undefined, record_closed, record_eof, bufferpool_invalid_page_num,
}
use atangyldb.DiskPool.{Os, Pool, frame_of}
use atangyldb.DiskPool.Pages.{get_page_count}
use atangyldb.RecordPage as Slots
use atangyldb.Trx.{Rid}
use atangyldb.RecordHandler as Page
use atangyldb.RecordHandler.{PageHandler, Address, new_page_handler, page_num_of, deinit, bytes_of}

-- The filter is a test on the bytes of a record, `none` for a null pointer.
pub record Scanner : Type 0 where
  pub is_open : Bool
  pub file_id : ℕ
  pub condition_filter : Option (Bytes → Bool)
  pub page_handler : PageHandler

-- The constructor.
abbrev pub new_scanner : Scanner
new_scanner = record {
  is_open = false;
  file_id = 0;
  condition_filter = none;
  page_handler = new_page_handler;
}

unfoldable pub close_scan : Scanner → Scanner
close_scan s = record s { is_open = false; condition_filter = none }

unfoldable pub open_scan : ℕ → Option (Bytes → Bool) → Scanner → Scanner
unfolding close_scan
open_scan file_id filter s = record (close_scan s) {
  is_open = true;
  file_id = file_id;
  condition_filter = filter;
}

-- A record that a scan found.
pub record Found : Type 0 where
  pub rid : Rid
  pub address : Address

-- `condition_filter_ == nullptr || condition_filter_->filter(current_record)`
abbrev pub passes : Option (Bytes → Bool) → Bytes → Bool
passes none bytes = true
passes (some filter) bytes = filter bytes

-- The loop of `get_next_record` inside of one page, after the slot `after`, in at most `n` rounds: each
-- round moves on by a slot, so that a round for each slot and one for the end are enough.
unfoldable pub next_in_page : Option (Bytes → Bool) → Bytes → ℕ → Option ℕ → Result ℕ
unfolding Slots.next offset
next_in_page filter bytes zero after = err record_eof
next_in_page filter bytes (suc n) after =
    let rest = next_in_page filter bytes n in
    elim (Slots.next bytes after) [
      | err e ↦ err e
      | undefined ↦ undefined
      | ok slot ↦
          if passes filter (offset bytes (Slots.record_offset bytes slot))
          then ok slot
          else rest (some slot)
    ]

module _ (os : Os) where
  abbrev pub P : Type 0
  P = Pool os.State

  abbrev pub Out : Type 0 → Type 0
  Out A = Result A × PageHandler × P

  -- The page handler on page `current`, as at the top of the loop.
  unfoldable pub open_page : ℕ → ℕ → PageHandler → P → Out (Unit {0})
  unfolding page_num_of deinit Page.init
  open_page file_id current h p =
      let here : Bool = elim (page_num_of h p) [ none ↦ false | some pn ↦ pn == current ] in
      let (h₁, p₁) = deinit h p in
      let out = Page.init os file_id current h₁ p₁ in if here then (ok tt, h, p) else out

  -- The rounds on one page, and what comes after them: the next page, with the code that stands in
  -- `ret` then, a record, or an error. A page that is not allocated is passed over.
  unfoldable pub scan_page :
      Option (Bytes → Bool)
      → Option ℕ
      → (Rc → PageHandler → P → Out (Option Found))
      → Out (Unit {0})
      → Out (Option Found)
  unfolding next_in_page
  scan_page filter after rest (err bufferpool_invalid_page_num, h, p) =
      rest bufferpool_invalid_page_num h p
  scan_page filter after rest (err e, h, p) = (err e, h, p)
  scan_page filter after rest (undefined, h, p) = (undefined, h, p)
  scan_page filter after rest (ok _, h, p) = elim h.header [
    | none ↦ (undefined, h, p)
    | some f ↦
        let bytes = bytes_of p f in
        elim (next_in_page filter bytes (Slots.record_capacity bytes + 1) after) [
          | err _ ↦ rest record_eof h p
          | undefined ↦ (undefined, h, p)
          | ok slot ↦ (
            ok (
                some record {
                  rid = record { page_num = (frame_of p f).page.page_num; slot_num = slot };
                  address = record { frame = f; start = Slots.record_offset bytes slot };
                }),
            h,
            p,
          )
        ]
  ]

  -- The loop over the pages, with `n` pages left: from `current` and a slot in it. Without a page left
  -- the result is what stands in `ret`.
  unfoldable pub scan_pages :
      Option (Bytes → Bool)
      → ℕ
      → ℕ
      → ℕ
      → Option ℕ
      → Result (Option Found)
      → PageHandler
      → P
      → Out (Option Found)
  unfolding open_page scan_page
  scan_pages filter file_id zero current after ret h p = (ret, h, p)
  scan_pages filter file_id (suc n) current after ret h p =
      let rest = λ (e : Rc). scan_pages filter file_id n (current + 1) none (err e) in
      scan_page filter after rest (open_page file_id current h p)

  -- `get_next_record` after a slot of a page: the record, or `ok none` for SUCCESS with the record as
  -- it was, which is what a page number past the file gives.
  unfoldable pub get_next_record : ℕ → Option ℕ → Scanner → P → Result (Option Found) × Scanner × P
  unfolding get_page_count scan_pages
  get_next_record pn after s p =
      if not s.is_open
      then (err record_closed, s, p)
      else (let (counted, p₁) = get_page_count s.file_id p in
          elim counted [
            | err _ ↦ (err record_eof, s, p₁)
            | undefined ↦ (undefined, s, p₁)
            | ok count ↦
                if count == 1
                then (err record_eof, s, p₁)
                else (let (r, h, p₂) =
                      scan_pages s.condition_filter s.file_id (count - pn) pn after (ok none)
                        s.page_handler p₁ in
                    (r, record s { page_handler = h }, p₂))
          ])

  unfoldable pub get_first_record : Scanner → P → Result (Option Found) × Scanner × P
  unfolding get_next_record
  get_first_record s p = get_next_record 1 none s p
