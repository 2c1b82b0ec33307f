-- ===== src/RecordFile.antt =====
-- RecordFileHandler of storage/common/record_manager.cpp: the records of a file, a page at a time.
pub mod Text
pub mod Room
pub mod Scanner
pub mod Masked
use atangyldb.Base.{
  ℕ, zero, suc, ◌+◌, ◌-◌, ◌%◌, Bool, true, false, not, Option, none, some, if◌then◌else◌, ◌==◌, leb,
  max, min,
}
use atangyldb.Memory.{Bytes, copy_in, fill, offset}
use atangyldb.Rc.{Rc, Result, ok, err, undefined, record_openned, bufferpool_invalid_page_num}
use atangyldb.DiskPool.{Os, Pool, PageHandle, frame_of}
use atangyldb.DiskPool.Pages.{
  get_this_page, get_data, mark_dirty, unpin_page, allocate_page, get_page_count,
}
use atangyldb.Trx.{Rid}
use atangyldb.RecordHandler as Page
use atangyldb.RecordHandler.{
  PageHandler, Address, new_page_handler, page_num_of, deinit, write_bytes, bytes_of,
}

pub record FileHandler : Type 0 where
  pub is_attached : Bool
  pub file_id : ℕ
  pub page_handler : PageHandler

-- The constructor, `init` and `close`.
abbrev pub new_file_handler : FileHandler
new_file_handler = record { is_attached = false; file_id = 0; page_handler = new_page_handler }

unfoldable pub init : ℕ → FileHandler → Result (Unit {0}) × FileHandler
init file_id h =
    if h.is_attached
    then (err record_openned, h)
    else (ok tt, record h { is_attached = true; file_id = file_id })

unfoldable pub close : FileHandler → FileHandler
close h = record h { is_attached = false }

-- A page handle that no call has filled in yet.
abbrev closed_handle : PageHandle
closed_handle = record { is_open = false; frame = none }

module _ (os : Os) where
  abbrev pub P : Type 0
  P = Pool os.State

  abbrev pub Out : Type 0 → Type 0
  Out A = Result A × PageHandler × P

  -- The one code that `insert_record` passes over.
  unfoldable pub unless_invalid : Result (Unit {0}) → Result (Unit {0})
  unless_invalid (ok u) = ok u
  unless_invalid (err bufferpool_invalid_page_num) = ok tt
  unless_invalid (err e) = err e
  unless_invalid undefined = undefined

  -- Page `current` in the page handler, if it is not there yet. The code of a page that is not
  -- allocated is passed over, and leaves the handler with its pointers into the page before.
  unfoldable pub turn_to : ℕ → ℕ → PageHandler → P → Out (Unit {0})
  unfolding page_num_of deinit Page.init unless_invalid
  turn_to file_id current h p =
      let here : Bool = elim (page_num_of h p) [ none ↦ false | some pn ↦ pn == current ] in
      let (h₁, p₁) = deinit h p in
      let (r, h₂, p₂) = Page.init os file_id current h₁ p₁ in
      if here then (ok tt, h, p) else (unless_invalid r, h₂, p₂)

  -- What the loop does after it has turned to a page: the test of `is_full`, else the next round.
  unfoldable pub take_or : (PageHandler → P → Out Bool) → Out (Unit {0}) → Out Bool
  unfolding Page.is_full
  take_or rest (err e, h, p) = (err e, h, p)
  take_or rest (undefined, h, p) = (undefined, h, p)
  take_or rest (ok _, h, p) = elim (Page.is_full h p) [
    | none ↦ (undefined, h, p)
    | some true ↦ rest h p
    | some false ↦ (ok true, h, p)
  ]

  -- The loop of `insert_record` for a page that is not full, in its round `i` with `n` rounds left;
  -- the number of the page moves on by `i`.
  unfoldable pub find_page : ℕ → ℕ → ℕ → ℕ → ℕ → PageHandler → P → Out Bool
  unfolding turn_to take_or
  find_page file_id count zero i current h p = (ok false, h, p)
  find_page file_id count (suc n) i current h p =
      let current' = (current + i) % count in
      let rest = find_page file_id count n (i + 1) current' in
      if current' == 0 then rest h p else take_or rest (turn_to file_id current' h p)

  -- A new page for records, in the page handler. The error of an `unpin_page` is only logged.
  unfoldable pub new_page : ℕ → ℕ → PageHandler → P → Out (Unit {0})
  unfolding allocate_page deinit Page.init_empty_page unpin_page
  new_page file_id record_size h p =
      let (r, ph, p₁) = allocate_page os file_id closed_handle p in
      elim r [
        | err e ↦ (err e, h, p₁)
        | undefined ↦ (undefined, h, p₁)
        | ok _ ↦ elim ph.frame [
          | none ↦ (undefined, h, p₁)
          | some f ↦
              let (h₂, p₂) = deinit h p₁ in
              let pn = (frame_of p₁ f).page.page_num in
              let (r₃, h₃, p₃) = Page.init_empty_page os file_id pn record_size h₂ p₂ in
              (r₃, h₃, (unpin_page ph p₃).2)
        ]
      ]

  -- `insert_record` with a page in the page handler.
  unfoldable pub put_record : Bytes → Out (Unit {0}) → Out Rid
  unfolding Page.insert_record
  put_record source (ok _, h, p) = let (r, p') = Page.insert_record source h p in (r, h, p')
  put_record source (err e, h, p) = (err e, h, p)
  put_record source (undefined, h, p) = (undefined, h, p)

  unfoldable pub insert_found : ℕ → ℕ → Bytes → Out Bool → Out Rid
  unfolding put_record new_page
  insert_found file_id record_size source (ok true, h, p) = put_record source (ok tt, h, p)
  insert_found file_id record_size source (ok false, h, p) =
      put_record source (new_page file_id record_size h p)
  insert_found file_id record_size source (err e, h, p) = (err e, h, p)
  insert_found file_id record_size source (undefined, h, p) = (undefined, h, p)

  -- The page from which the search starts: the current one, or page 1 if there is a page of records.
  unfoldable pub start_page : ℕ → ℕ → PageHandler → P → Out ℕ
  unfolding page_num_of Page.init
  start_page file_id count h p = elim (page_num_of h p) [
    | some pn ↦ (ok pn, h, p)
    | none ↦
        let (r, h', p') = Page.init os file_id 1 h p in
        if leb 2 count
        then elim r [
          | ok _ ↦ elim (page_num_of h' p') [
            | none ↦ (undefined, h', p')
            | some pn ↦ (ok pn, h', p')
          ]
          | err e ↦ (err e, h', p')
          | undefined ↦ (undefined, h', p')
        ]
        else (ok 0, h, p)
  ]

  unfoldable pub search_from : ℕ → ℕ → Out ℕ → Out Bool
  unfolding find_page
  search_from file_id count (ok pn, h, p) = find_page file_id count count 0 pn h p
  search_from file_id count (err e, h, p) = (err e, h, p)
  search_from file_id count (undefined, h, p) = (undefined, h, p)

  unfoldable pub insert_record : ℕ → Bytes → FileHandler → P → Result Rid × FileHandler × P
  unfolding get_page_count start_page search_from insert_found
  insert_record record_size source h p =
      let (counted, p₁) = get_page_count h.file_id p in
      elim counted [
        | err e ↦ (err e, h, p₁)
        | undefined ↦ (undefined, h, p₁)
        | ok count ↦
            let found =
              search_from h.file_id count (start_page h.file_id count h.page_handler p₁) in
            let (r, ph, p₂) = insert_found h.file_id record_size source found in
            (r, record h { page_handler = ph }, p₂)
      ]

  -- A page handler of its own for one call, which the destructor closes. The source compares
  -- `ret != init(...)`, a Boolean, with SUCCESS: a failure of `init` makes it 1 and the call returns
  -- `ret`, which is SUCCESS still; without a failure it goes on.
  unfoldable pub with_page :
      {A : Type 0}
      → ℕ
      → ℕ
      → Result A
      → (PageHandler → P → Result A × PageHandler × P)
      → P
      → Result A × P
  unfolding Page.init deinit
  with_page file_id pn not_run f p =
      let (r, h, p₁) = Page.init os file_id pn new_page_handler p in
      elim r [
        | err _ ↦ (not_run, (deinit h p₁).1)
        | undefined ↦ (undefined, p₁)
        | ok _ ↦ let (r', h', p₂) = f h p₁ in (r', (deinit h' p₂).1)
      ]

  -- The calls of the page handler that keep it.
  abbrev pub keeping : {A : Type 0} → PageHandler → Result A × P → Out A
  keeping h (r, p) = (r, h, p)

  abbrev pub some_address : Result Address → Result (Option Address)
  some_address (ok a) = ok (some a)
  some_address (err e) = err e
  some_address undefined = undefined

  unfoldable pub update_record : Rid → Bytes → FileHandler → P → Result (Unit {0}) × P
  unfolding with_page Page.update_record
  update_record rid source h =
      with_page h.file_id rid.page_num (ok tt)
        λ ph q. keeping ph (Page.update_record rid.slot_num source ph q)

  unfoldable pub delete_record : Rid → FileHandler → P → Result (Unit {0}) × P
  unfolding with_page Page.delete_record
  delete_record rid h =
      with_page h.file_id rid.page_num (ok tt) (Page.delete_record os rid.slot_num)

  -- `get_record`, for pointers that are not null. A page that cannot be had leaves `rec` as it was, and
  -- the result is SUCCESS: `ok none`.
  unfoldable pub get_record : Rid → FileHandler → P → Result (Option Address) × P
  unfolding with_page Page.get_record
  get_record rid h =
      with_page h.file_id rid.page_num (ok none)
        λ ph q. let (r, q') = Page.get_record rid.slot_num ph q in (some_address r, ph, q')
