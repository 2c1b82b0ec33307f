-- ===== src/RecordFile/Room.antt =====
-- The page that the loop of `RecordFileHandler::insert_record` in record_manager.cpp stops at.
use atangyldb.Base.{ℕ, ◌≡◌, refl, ap, Bool, true, false, some}
use atangyldb.Memory.{Bytes}
use atangyldb.Rc.{ok}
use atangyldb.RecordPage as Slots
use atangyldb.DiskPool.{Os, Pool, frame_of}
use atangyldb.DiskPool.Pages.{mark_dirty}
use atangyldb.RecordHandler.{PageHandler, bytes_of, write_bytes, is_full, insert_record}
use atangyldb.RecordFile.{Out}

module _ (os : Os) where
  abbrev P : Type 0
  P = Pool os.State

  -- The search has found a page only if the page in the handler is not full.
  abbrev HasRoom : Out os Bool → Type 0
  HasRoom out = (h : PageHandler) (p : P) → out ≡ (ok true, h, p) → is_full h p ≡ some false

  -- The pool after the bytes `m` were written into the frame `f` of the page handler.
  abbrev stored : PageHandler → P → ℕ → Bytes → P
  stored h p f m = (mark_dirty h.page_handle (write_bytes f m p)).1

  run :
      (source : Bytes) (h : PageHandler) (p : P) (f index : ℕ) (m : Bytes)
      → h.header ≡ some f
      → Slots.insert (bytes_of p f) source ≡ (ok index, m)
      → insert_record source h p ≡ (
        ok (record { page_num = (frame_of (stored h p f m) f).page.page_num; slot_num = index }),
        stored h p f m,
      )
  unfolding insert_record
  run source h p f index m at done =
      rw (at, insert_record, ap (λ r. r.0) done, ap (λ r. r.1) done) refl
