-- ===== src/RecordFile/Masked.antt =====
-- Calls of RecordFileHandler in record_manager.cpp on a page that cannot be had.
use atangyldb.Base.{
  ℕ, ◌≡◌, ◌≤◌, ◌<◌, refl, ap, ◌⊎◌, inl, inr, false, none, some, leb, arith, Bool-cases,
}
use atangyldb.Memory.{Bytes}
use atangyldb.Rc.{Result, ok, err, bufferpool_invalid_page_num}
use atangyldb.DiskPool.{Os, Pool, PageHandle, FileHandle, max_open_file}
use atangyldb.DiskPool.Calls.{check_file_id, check_page_num, page_count, page_bit}
use atangyldb.DiskPool.Pages.{get_this_page, checked}
use atangyldb.Trx.{Rid}
use atangyldb.RecordHandler as Page
use atangyldb.RecordHandler.{PageHandler, new_page_handler, deinit, attach}
use atangyldb.RecordFile.{
  keeping, some_address, FileHandler, with_page, update_record, delete_record, get_record,
}

module _ (os : Os) where
  abbrev P : Type 0
  P = Pool os.State

  -- `get_this_page` refuses a page past the end of the file, and one that is not allocated.
  refused :
      (p : P) (file_id pn : ℕ) (h : FileHandle) (ph : PageHandle)
      → file_id < max_open_file
      → p.open_file file_id ≡ some h
      → (page_count p h ≤ pn) ⊎ (page_bit p h pn ≡ false)
      → get_this_page os file_id pn ph p ≡ (err bufferpool_invalid_page_num, ph, p)
  unfolding get_this_page checked check_file_id check_page_num
  refused p file_id pn h ph id opened bad =
      let a : leb max_open_file file_id ≡ false = ground arith in
      elim (Bool-cases (leb (page_count p h) pn)) [
        | inl past ↦ rw (a, opened, past) refl
        | inr inside ↦ elim bad [
          | inl le ↦ absurd (ground arith)
          | inr clear ↦ rw (a, opened, inside, clear) refl
        ]
      ]

  masked :
      {A : Type 0} (p : P) (file_id pn : ℕ) (not_run : Result A)
      (f : PageHandler → P → Result A × PageHandler × P)
      → get_this_page os file_id pn new_page_handler.page_handle p
        ≡ (err bufferpool_invalid_page_num, new_page_handler.page_handle, p)
      → with_page os file_id pn not_run f p ≡ (not_run, p)
  unfolding with_page Page.init attach deinit
  masked p file_id pn not_run f gone =
      let start : Page.init os file_id pn new_page_handler p
          ≡ (err bufferpool_invalid_page_num, new_page_handler, p) =
        ap (attach os file_id new_page_handler) gone in
      rw (with_page, ap (λ r. r.0) start, ap (λ r. r.1) start, ap (λ r. r.2) start) refl

  -- An update, a deletion or a read of a record on a page that is not in its open file, or is not
  -- allocated: each call reports SUCCESS and does nothing. The read leaves the caller's record as it
  -- was.
  pub with_page-masks :
      (p : P) (h : FileHandler) (rid : Rid) (source : Bytes) (fh : FileHandle)
      → h.file_id < max_open_file
      → p.open_file h.file_id ≡ some fh
      → (page_count p fh ≤ rid.page_num) ⊎ (page_bit p fh rid.page_num ≡ false)
      → (update_record os rid source h p ≡ (ok tt, p))
        × (delete_record os rid h p ≡ (ok tt, p))
        × (get_record os rid h p ≡ (ok none, p))
  unfolding update_record delete_record get_record
  with_page-masks p h rid source fh id opened bad =
      let no_page =
        refused p h.file_id rid.page_num fh new_page_handler.page_handle id opened bad in
      (
        masked p h.file_id rid.page_num (ok tt)
            (λ ph q. keeping os ph (Page.update_record rid.slot_num source ph q)) no_page,
        masked p h.file_id rid.page_num (ok tt) (Page.delete_record os rid.slot_num) no_page,
        masked p h.file_id rid.page_num (ok none)
            (λ ph q. let (r, q') = Page.get_record rid.slot_num ph q in (some_address os r, ph, q'))
            no_page,
      )
