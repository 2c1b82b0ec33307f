-- ===== src/Tests/Files.antt =====
-- RecordFileHandler of record_manager.cpp at concrete inputs.
use atangyldb.Base.{true, false, some}
use atangyldb.BufferManager.{Frame}
use atangyldb.DiskPool.{Pool}
use atangyldb.DiskPool.Files.{new_pool}
use atangyldb.RecordPage as Slots
use atangyldb.RecordHandler.{PageHandler}
use atangyldb.Tests.Device.{Disk, one_file}
use atangyldb.Tests.Records.{empty_page}

abbrev page_frame : Frame
page_frame = record {
  dirty = false;
  pin_count = 1;
  acc_time = 0;
  file_desc = 3;
  page = record { page_num = 1; bytes = empty_page };
}

-- A pool whose frames hold an empty page of records, and a handler of that page.
abbrev pool : Pool Disk
pool = new_pool 1 (λ _. page_frame) one_file

abbrev handler : PageHandler
handler = record {
  is_attached = true;
  file_id = 0;
  page_handle = record { is_open = true; frame = some 0 };
  header = some 0;
}
