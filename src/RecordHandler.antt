-- ===== src/RecordHandler.antt =====
-- RecordPageHandler of storage/common/record_manager.cpp: a page of records in the buffer pool. What
-- it does to the bytes of the page is in RecordPage.
use atangyldb.Base.{ℕ, Bool, true, false, Option, none, some, if◌then◌else◌, ◌==◌}
use atangyldb.Memory.{Bytes}
use atangyldb.RecordPage as Slots
use atangyldb.Rc.{Result, ok, err, undefined, record_openned}
use atangyldb.DiskPool.{Os, Pool, PageHandle, frame_of, with_frame}
use atangyldb.DiskPool.Pages.{get_this_page, get_data, mark_dirty, unpin_page, dispose_page}
use atangyldb.Trx.{Rid}

-- `is_attached` says that `disk_buffer_pool_` is not null; `header` is the frame into whose page
-- `page_header_` and `bitmap_` point, if they are not null.
pub record PageHandler : Type 0 where
  pub is_attached : Bool
  pub file_id : ℕ
  pub page_handle : PageHandle
  pub header : Option ℕ

-- The constructor.
abbrev pub new_page_handler : PageHandler
new_page_handler = record {
  is_attached = false;
  file_id = 0;
  page_handle = record { is_open = false; frame = none };
  header = none;
}

-- The bytes of the page in a frame, read and written.
abbrev pub bytes_of : {S : Type 0} → Pool S → ℕ → Bytes
bytes_of p f = (frame_of p f).page.bytes

unfoldable pub write_bytes : {S : Type 0} → ℕ → Bytes → Pool S → Pool S
unfolding with_frame
write_bytes f bytes p =
    let frame = frame_of p f in
    with_frame p f (record frame { page = record (frame.page) { bytes = bytes } })

module _ (os : Os) where
  abbrev pub P : Type 0
  P = Pool os.State

  -- `init` after `get_this_page`.
  unfoldable pub attach :
      ℕ → PageHandler → Result (Unit {0}) × PageHandle × P → Result (Unit {0}) × PageHandler × P
  unfolding get_data
  attach file_id h (ok _, ph, p) =
      let (got, p') = get_data ph p in
      elim got [
        | ok f ↦ (
          ok tt,
          record { is_attached = true; file_id = file_id; page_handle = ph; header = some f },
          p',
        )
        | err e ↦ (err e, record h { page_handle = ph }, p')
        | undefined ↦ (undefined, record h { page_handle = ph }, p')
      ]
  attach file_id h (err e, ph, p) = (err e, record h { page_handle = ph }, p)
  attach file_id h (undefined, ph, p) = (undefined, record h { page_handle = ph }, p)

  unfoldable pub init : ℕ → ℕ → PageHandler → P → Result (Unit {0}) × PageHandler × P
  unfolding attach get_this_page
  init file_id pn h p =
      if h.is_attached
      then (err record_openned, h, p)
      else attach file_id h (get_this_page os file_id pn h.page_handle p)

  -- `init_empty_page` after `init`.
  unfoldable pub format :
      ℕ → Result (Unit {0}) × PageHandler × P → Result (Unit {0}) × PageHandler × P
  unfolding write_bytes Slots.format_page mark_dirty
  format record_size (ok _, h, p) = elim h.header [
    | none ↦ (undefined, h, p)
    | some f ↦
        let p' = write_bytes f (Slots.format_page (bytes_of p f) record_size) p in
        (ok tt, h, (mark_dirty h.page_handle p').1)
  ]
  format record_size (err e, h, p) = (err e, h, p)
  format record_size (undefined, h, p) = (undefined, h, p)

  unfoldable pub init_empty_page : ℕ → ℕ → ℕ → PageHandler → P → Result (Unit {0}) × PageHandler × P
  unfolding init format
  init_empty_page file_id pn record_size h p = format record_size (init file_id pn h p)

-- `deinit`: the pointers into the page stay as they were. An error of `unpin_page` is only logged.
unfoldable pub deinit : {S : Type 0} → PageHandler → Pool S → PageHandler × Pool S
unfolding unpin_page
deinit h p =
    if h.is_attached
    then (let (_, ph, p') = unpin_page h.page_handle p in
        (record h { is_attached = false; page_handle = ph }, p'))
    else (h, p)

-- `get_page_num`: `none` is -1, and a null frame is not dereferenced by a handler that was attached.
unfoldable pub page_num_of : {S : Type 0} → PageHandler → Pool S → Option ℕ
page_num_of h p = elim h.header [
  | none ↦ none
  | some _ ↦ elim h.page_handle.frame [ none ↦ none | some f ↦ some (frame_of p f).page.page_num ]
]

-- `insert_record`. Header and record are in one page: the frame of the handle is the one that
-- `header` points into, unless a load has failed in between, which is left out here.
unfoldable pub insert_record : {S : Type 0} → Bytes → PageHandler → Pool S → Result Rid × Pool S
unfolding Slots.insert write_bytes mark_dirty
insert_record source h p = elim h.header [
  | none ↦ (undefined, p)
  | some f ↦
      let (found, bytes) = Slots.insert (bytes_of p f) source in
      elim found [
        | err e ↦ (err e, p)
        | undefined ↦ (undefined, p)
        | ok index ↦
            let p' = (mark_dirty h.page_handle (write_bytes f bytes p)).1 in
            (ok (record { page_num = (frame_of p' f).page.page_num; slot_num = index }), p')
      ]
]

-- `update_record`; `mark_dirty` returns SUCCESS for a handle with a frame.
unfoldable pub update_record :
    {S : Type 0} → ℕ → Bytes → PageHandler → Pool S → Result (Unit {0}) × Pool S
unfolding Slots.update write_bytes mark_dirty
update_record slot source h p = elim h.header [
  | none ↦ (undefined, p)
  | some f ↦
      let (done, bytes) = Slots.update (bytes_of p f) slot source in
      elim done [
        | err e ↦ (err e, p)
        | undefined ↦ (undefined, p)
        | ok _ ↦ mark_dirty h.page_handle (write_bytes f bytes p)
      ]
]

-- The address of a record: the frame, and where its bytes begin in the page.
pub record Address : Type 0 where
  pub frame : ℕ
  pub start : ℕ

-- `get_record`
unfoldable pub get_record : {S : Type 0} → ℕ → PageHandler → Pool S → Result Address × Pool S
unfolding Slots.get
get_record slot h p = elim h.header [
  | none ↦ (undefined, p)
  | some f ↦ elim (Slots.get (bytes_of p f) slot) [
    | err e ↦ (err e, p)
    | undefined ↦ (undefined, p)
    | ok start ↦ (ok (record { frame = f; start = start }), p)
  ]
]

-- `is_full`
unfoldable pub is_full : {S : Type 0} → PageHandler → Pool S → Option Bool
unfolding Slots.is_full
is_full h p = elim h.header [ none ↦ none | some f ↦ some (Slots.is_full (bytes_of p f)) ]

module _ (os : Os) where
  -- The end of `delete_record`: a page without records is given back to the pool, and the result of
  -- `dispose_page` is not looked at.
  unfoldable pub drop_empty : PageHandler → Pool os.State → PageHandler × Pool os.State
  unfolding deinit dispose_page page_num_of
  drop_empty h p =
      let (h', p') = deinit h p in
      elim (page_num_of h p) [
        | none ↦ (h', p')
        | some pn ↦ (h', (dispose_page os h.file_id pn p').1)
      ]

  unfoldable pub delete_record :
      ℕ → PageHandler → Pool os.State → Result (Unit {0}) × PageHandler × Pool os.State
  unfolding Slots.delete write_bytes mark_dirty drop_empty
  delete_record slot h p = elim h.header [
    | none ↦ (undefined, h, p)
    | some f ↦
        let (done, bytes) = Slots.delete (bytes_of p f) slot in
        elim done [
          | err e ↦ (err e, h, p)
          | undefined ↦ (undefined, h, p)
          | ok _ ↦
              let (marked, p') = mark_dirty h.page_handle (write_bytes f bytes p) in
              if Slots.record_num bytes == 0
              then (let (h', p'') = drop_empty h p' in (marked, h', p''))
              else (marked, h, p')
        ]
  ]
