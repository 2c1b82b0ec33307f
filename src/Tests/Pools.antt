-- ===== src/Tests/Pools.antt =====
-- The buffer pool of disk_buffer_pool.cpp at concrete inputs.
use atangyldb.Base.{
  ℕ, ◌≤◌, ◌⊎◌, inl, ◌≡◌, refl, sym, ap, subst, true, false, none, some, [], ◌∷◌, ◌++◌, arith,
}
use atangyldb.Base.Lists.{contains}
use atangyldb.Base.Bits.{test_bit, raise_bit}
use atangyldb.Memory.{load_int, store_int, store_byte}
use atangyldb.BufferManager.{Page, new_manager, get_frame, lookup}
use atangyldb.BufferManager.Table.{same_key}
use atangyldb.BufferManager.Managed.{Holds}
use atangyldb.Rc.{ok}
use atangyldb.DiskPool.{FileHandle, Pool, PageHandle, frame_of, with_frame}
use atangyldb.DiskPool.Calls.{flush_block, allocate_block, page_count, page_bit}
use atangyldb.DiskPool.Pages.{get_this_page, mark_dirty}
use atangyldb.DiskPool.Files.{header_page, new_pool, open_file_named, force_all_pages, entries_of}
use atangyldb.DiskPool.Coherent.{IsCoherent, content}
use atangyldb.DiskPool.Evict.{BlockOutcome, allocate_block-Evicted}
use atangyldb.DiskPool.Flush.{flush_block-stores}
use atangyldb.DiskPool.Fetch.{FetchOutcome, get_this_page-outcome}
use atangyldb.DiskPool.Open.{new_pool-IsCoherent, Opened, OpenOutcome, open_file_named-outcome}
use atangyldb.DiskPool.Write.{write_data, mark_dirty-saves}
use atangyldb.DiskPool.Stale.{force_all_pages-stale}
use atangyldb.RecordFile.{new_file_handler, update_record, delete_record, get_record}
use atangyldb.RecordFile.Masked.{with_page-masks}
use atangyldb.Tests.Device.{Disk, moved, disk_os, disk_os-IsReliable, one_file}
use atangyldb.Tests.Managers.{blank_frame}

abbrev start : Pool Disk
start = new_pool 2 (λ _. blank_frame) one_file

start-IsCoherent : IsCoherent disk_os disk_os-IsReliable start
start-IsCoherent = new_pool-IsCoherent disk_os disk_os-IsReliable 2 _ one_file (λ f. refl)

open_file_named-outcome_example :
    OpenOutcome disk_os disk_os-IsReliable start "a" 3 0 header_page
      (open_file_named disk_os "a" start)
unfolding new_pool new_manager lookup disk_os-IsReliable
open_file_named-outcome_example =
    open_file_named-outcome disk_os disk_os-IsReliable start "a" 3 0 _ one_file header_page
      start-IsCoherent refl refl refl refl refl refl

-- The pool with the file open under the id 0.
abbrev with_file : Pool Disk
with_file = (open_file_named disk_os "a" start).1

opens : open_file_named disk_os "a" start ≡ (ok 0, with_file)
unfolding open_file_named new_pool moved
opens = refl

opened : Opened disk_os disk_os-IsReliable start "a" 3 0 header_page with_file
unfolding new_pool new_manager lookup disk_os-IsReliable
opened =
    (subst (OpenOutcome disk_os disk_os-IsReliable start "a" 3 0 header_page) opens (
      open_file_named-outcome disk_os disk_os-IsReliable start "a" 3 0 _ one_file header_page
        start-IsCoherent refl refl refl refl refl refl)).1

abbrev file_handle : FileHandle
file_handle = record { file_name = "a"; file_desc = 3; hdr_frame = 0 }

abbrev run : Unit {0}
unfolding open_file_named new_pool moved lookup load_int store_int store_byte disk_os-IsReliable
    test_bit raise_bit mark_dirty with_frame
run = tt

is_open : with_file.open_file 0 ≡ some file_handle
unfolding run
is_open = refl

held_header : Holds with_file.manager 3 0 0
unfolding run
held_header = refl

reads : content disk_os disk_os-IsReliable with_file 3 0 ≡ some header_page
unfolding run
reads = refl

one_page : page_count with_file file_handle ≡ 1
unfolding run
one_page = refl

page_0 : page_bit with_file file_handle 0 ≡ true
unfolding run
page_0 = refl

abbrev closed_handle : PageHandle
closed_handle = record { is_open = false; frame = none }

get_this_page-outcome_example :
    FetchOutcome disk_os disk_os-IsReliable with_file 3 0 header_page
      (get_this_page disk_os 0 0 closed_handle with_file)
get_this_page-outcome_example =
    get_this_page-outcome disk_os disk_os-IsReliable with_file 0 0 file_handle closed_handle
      header_page opened.header.coherent (omega arith) is_open (rw one_page (omega arith)) page_0
      reads refl

flush_block-stores_example :
    (s : Disk) × (flush_block disk_os 0 with_file ≡ (
      ok tt,
      with_frame (record with_file { sys = s }) 0 (record (frame_of with_file 0) { dirty = false }),
    ))
    × (disk_os-IsReliable.stored s
          (frame_of with_file 0).file_desc
          (frame_of with_file 0).page.page_num
        ≡ some (frame_of with_file 0).page)
    × ((fd pn : ℕ) (page : Page)
        → same_key (frame_of with_file 0).file_desc (frame_of with_file 0).page.page_num fd pn
          ≡ false
        → disk_os-IsReliable.stored with_file.sys fd pn ≡ some page
        → disk_os-IsReliable.stored s fd pn ≡ some page)
flush_block-stores_example = flush_block-stores disk_os disk_os-IsReliable 0 with_file

-- The header page again, with all bytes 0.
abbrev cleared : Page
cleared = record { page_num = 0; bytes = λ _. 0 }

mark_dirty-saves_example :
    (p' : Pool Disk) × (mark_dirty
        (record { is_open = true; frame = some 0 })
        (write_data disk_os disk_os-IsReliable with_file 0 (λ _. 0))
      ≡ (ok tt, p'))
    × IsCoherent disk_os disk_os-IsReliable p'
    × (content disk_os disk_os-IsReliable p' 3 0 ≡ some cleared)
    × ((fd' pn' : ℕ) (page : Page)
        → same_key 3 0 fd' pn' ≡ false
        → content disk_os disk_os-IsReliable with_file fd' pn' ≡ some page
        → content disk_os disk_os-IsReliable p' fd' pn' ≡ some page)
mark_dirty-saves_example =
    mark_dirty-saves disk_os disk_os-IsReliable with_file 3 0 0 (λ _. 0) opened.header.coherent
      held_header

-- Frame 0 is out, the header page stands in frame 1, and is dirty.
abbrev late_start : Pool Disk
late_start = (allocate_block disk_os start).1

allocates : allocate_block disk_os start ≡ (ok 0, late_start)
unfolding run allocate_block
allocates = refl

late_start-IsCoherent : IsCoherent disk_os disk_os-IsReliable late_start
late_start-IsCoherent =
    (subst (BlockOutcome disk_os disk_os-IsReliable start) allocates
      (allocate_block-Evicted disk_os disk_os-IsReliable start start-IsCoherent)).coherent

abbrev late_file : Pool Disk
late_file = (open_file_named disk_os "a" late_start).1

opens_late : open_file_named disk_os "a" late_start ≡ (ok 0, late_file)
unfolding run allocate_block
opens_late = refl

opened_late : Opened disk_os disk_os-IsReliable late_start "a" 3 0 header_page late_file
unfolding run allocate_block
opened_late =
    (subst (OpenOutcome disk_os disk_os-IsReliable late_start "a" 3 0 header_page) opens_late (
      open_file_named-outcome disk_os disk_os-IsReliable late_start "a" 3 0 _ one_file header_page
        late_start-IsCoherent refl refl refl refl refl refl)).1

held_late : Holds late_file.manager 3 0 1
unfolding run allocate_block
held_late = refl

abbrev late_dirty : Pool Disk
late_dirty =
    (mark_dirty (record { is_open = true; frame = some 1 })
      (write_data disk_os disk_os-IsReliable late_file 1 (λ _. 0))).1

late_dirty-IsCoherent : IsCoherent disk_os disk_os-IsReliable late_dirty
late_dirty-IsCoherent =
    let (p', done, coherent, own, rest) =
      mark_dirty-saves disk_os disk_os-IsReliable late_file 3 0 1 (λ _. 0)
        opened_late.header.coherent held_late in
    subst (IsCoherent disk_os disk_os-IsReliable) (sym (ap (λ r. r.1) done)) coherent

late_entry :
    entries_of 3 late_dirty.manager.page_table ≡ [] ++ record { fd = 3; pn = 0; frame = 1 } ∷ []
unfolding run allocate_block entries_of
late_entry = refl

is_dirty : (frame_of late_dirty 1).dirty ≡ true
unfolding run allocate_block
is_dirty = refl

force_all_pages-stale_example :
    (p' : Pool Disk) × (force_all_pages disk_os (record file_handle { hdr_frame = 1 }) late_dirty
      ≡ (ok tt, p'))
    × (contains 1 p'.manager.free_list ≡ true)
    × (get_frame p'.manager 3 0 ≡ get_frame late_dirty.manager 3 0)
force_all_pages-stale_example =
    force_all_pages-stale disk_os disk_os-IsReliable late_dirty
      (record file_handle { hdr_frame = 1 }) [] [] (record { fd = 3; pn = 0; frame = 1 })
      late_dirty-IsCoherent late_entry tt tt is_dirty (omega arith)

no_page_1 : (page_count with_file file_handle ≤ 1) ⊎ (page_bit with_file file_handle 1 ≡ false)
no_page_1 = inl (rw one_page (omega arith))

with_page-masks_example :
    (update_record disk_os
        (record { page_num = 1; slot_num = 0 })
        (λ _. 0)
        (record new_file_handler { file_id = 0 })
        with_file
      ≡ (ok tt, with_file))
    × (delete_record disk_os
          (record { page_num = 1; slot_num = 0 })
          (record new_file_handler { file_id = 0 })
          with_file
        ≡ (ok tt, with_file))
    × (get_record disk_os
          (record { page_num = 1; slot_num = 0 })
          (record new_file_handler { file_id = 0 })
          with_file
        ≡ (ok none, with_file))
with_page-masks_example =
    with_page-masks disk_os with_file (record new_file_handler { file_id = 0 })
      (record { page_num = 1; slot_num = 0 }) (λ _. 0) file_handle (omega arith) is_open no_page_1
