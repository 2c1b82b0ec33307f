-- ===== src/RecordFile/Text.antt =====
-- The TEXTS pages of RecordFileHandler in storage/common/record_manager.cpp: a long text keeps its
-- first 28 bytes in the record and the rest in a page of its own.
use atangyldb.Base.{false, ◌≡◌, ◌≤◌, ltb, if◌then◌else◌, arith, ℕ, ◌+◌, ◌-◌, none, some, min}
use atangyldb.Memory.{Bytes, copy_in, fill, offset}
use atangyldb.Rc.{Result, ok, err, undefined}
use atangyldb.DiskPool.{Os, Pool, PageHandle, frame_of}
use atangyldb.DiskPool.Pages.{get_this_page, get_data, mark_dirty, unpin_page, allocate_page}
use atangyldb.RecordHandler as Page
use atangyldb.RecordHandler.{new_page_handler, write_bytes, bytes_of}

-- TEXTPATCHSIZE, PAGENUMSIZE and BP_PAGE_SIZE
abbrev pub text_patch_size : ℕ
text_patch_size = 28

abbrev pub page_num_size : ℕ
page_num_size = 4

abbrev pub bp_page_size : ℕ
bp_page_size = 4096

-- `std::min(std::max(0, data_len - TEXTPATCHSIZE), BP_PAGE_SIZE - TEXTPATCHSIZE)`
unfoldable pub remain_size : ℕ → ℕ
remain_size data_len = min (data_len - text_patch_size) (bp_page_size - text_patch_size)

-- The `memcpy` into the page, of the rest of a text of `data_len` bytes.
unfoldable pub store_rest : Bytes → Bytes → ℕ → Bytes
unfolding copy_in offset remain_size
store_rest page text data_len =
    copy_in page (text_patch_size - page_num_size) (offset text text_patch_size)
      (remain_size data_len)

-- The `memcpy` out of the page.
unfoldable pub load_rest : Bytes → Bytes → Bytes
unfolding copy_in offset
load_rest text page =
    copy_in text 0 (offset page (text_patch_size - page_num_size)) (bp_page_size - text_patch_size)

module _ (os : Os) where
  abbrev pub P : Type 0
  P = Pool os.State

  abbrev closed_handle : PageHandle
  closed_handle = record { is_open = false; frame = none }

  -- `mark_dirty` and `unpin_page`, whose codes do not matter with a frame.
  unfoldable pub finish : PageHandle → P → P
  unfolding mark_dirty unpin_page
  finish ph p = (unpin_page ph (mark_dirty ph p).1).2

  -- `insert_text_data`: the number of the page.
  unfoldable pub insert_text_data : ℕ → Bytes → ℕ → P → Result ℕ × P
  unfolding allocate_page write_bytes store_rest finish
  insert_text_data file_id text data_len p =
      let (r, ph, p₁) = allocate_page os file_id closed_handle p in
      elim r [
        | err e ↦ (err e, p₁)
        | undefined ↦ (undefined, p₁)
        | ok _ ↦ elim ph.frame [
          | none ↦ (undefined, p₁)
          | some f ↦ (
            ok (frame_of p₁ f).page.page_num,
            finish ph (write_bytes f (store_rest (bytes_of p₁ f) text data_len) p₁),
          )
        ]
      ]

  -- `get_this_page` and `get_data`: the handle and the frame of the page.
  unfoldable pub text_page : ℕ → ℕ → P → Result (PageHandle × ℕ) × P
  unfolding get_this_page get_data
  text_page file_id pn p =
      let (r, ph, p₁) = get_this_page os file_id pn closed_handle p in
      elim r [
        | err e ↦ (err e, p₁)
        | undefined ↦ (undefined, p₁)
        | ok _ ↦
            let (got, p₂) = get_data ph p₁ in
            elim got [ err e ↦ (err e, p₂) | undefined ↦ (undefined, p₂) | ok f ↦ (ok (ph, f), p₂) ]
      ]

  -- `read_text_data`: the caller's buffer with the rest of the text.
  unfoldable pub read_text_data : ℕ → ℕ → Bytes → P → Result Bytes × P
  unfolding text_page load_rest unpin_page
  read_text_data file_id pn text p =
      let (r, p₁) = text_page file_id pn p in
      elim r [
        | err e ↦ (err e, p₁)
        | undefined ↦ (undefined, p₁)
        | ok found ↦ (ok (load_rest text (bytes_of p₁ found.1)), (unpin_page found.0 p₁).2)
      ]

  -- `update_text_data`
  unfoldable pub update_text_data : ℕ → ℕ → Bytes → ℕ → P → Result (Unit {0}) × P
  unfolding text_page write_bytes store_rest finish fill
  update_text_data file_id pn text data_len p =
      let (r, p₁) = text_page file_id pn p in
      elim r [
        | err e ↦ (err e, p₁)
        | undefined ↦ (undefined, p₁)
        | ok found ↦
            let cleared = fill (bytes_of p₁ found.1) 0 0 (bp_page_size - page_num_size) in
            (ok tt, finish found.0 (write_bytes found.1 (store_rest cleared text data_len) p₁))
      ]

  -- `delete_text_data`: the page becomes an empty page of records. The destructor of the temporary
  -- handler closes it.
  unfoldable pub delete_text_data : ℕ → ℕ → ℕ → P → Result (Unit {0}) × P
  unfolding Page.init_empty_page Page.deinit
  delete_text_data file_id pn record_size p =
      let (r, h, p₁) = Page.init_empty_page os file_id pn record_size new_page_handler p in
      (r, (Page.deinit h p₁).1)

-- A reader gets back the rest of the text that was stored, as far as it fits: byte `k` of the rest is
-- byte `28 + k` of the text, and after the rest come the bytes that the page had there. The rest ends
-- inside of the page.
pub load_rest-store_rest :
    (page text buffer : Bytes) (data_len k : ℕ)
    → (load_rest buffer (store_rest page text data_len) k ≡ (
        if ltb k (remain_size data_len)
        then text (text_patch_size + k)
        else if ltb k (bp_page_size - text_patch_size)
        then page (text_patch_size - page_num_size + k)
        else buffer k))
      × (text_patch_size - page_num_size + remain_size data_len ≤ bp_page_size - page_num_size)
unfolding load_rest store_rest remain_size copy_in offset
load_rest-store_rest page text buffer data_len k = (ground arith, ground arith)
