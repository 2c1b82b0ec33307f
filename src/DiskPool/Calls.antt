-- ===== src/DiskPool/Calls.antt =====
-- The protected methods of DiskBufferPool in disk_buffer_pool.cpp.
use atangyldb.Base.{
  ℕ, Option, ◌+◌, ◌*◌, ◌/◌, ◌%◌, Bool, false, not, none, some, if◌then◌else◌, ◌==◌, leb,
}
use atangyldb.Base.Bits.{test_bit}
use atangyldb.Memory.{Bytes, load_int}
use atangyldb.BufferManager.{BpManager, alloc, delete_frame}
use atangyldb.Rc.{
  Result, ok, err, nomem, locked_unlock, bufferpool_illegal_file_id, bufferpool_invalid_page_num,
  ioerr_seek, ioerr_read, ioerr_write,
}
use atangyldb.DiskPool.{
  Os, FileHandle, Pool, Io, ◌>>◌, pure, max_open_file, page_size, frame_of, with_frame,
}

-- BPFileSubHeader and the bitmap of pages, in the bytes of the file's header page.
abbrev pub header : {S : Type 0} → Pool S → FileHandle → Bytes
header p h = (frame_of p h.hdr_frame).page.bytes

abbrev pub page_count : {S : Type 0} → Pool S → FileHandle → ℕ
page_count p h = load_int (header p h) 0

abbrev pub allocated_pages : {S : Type 0} → Pool S → FileHandle → ℕ
allocated_pages p h = load_int (header p h) 4

abbrev pub page_bit : {S : Type 0} → Pool S → FileHandle → ℕ → Bool
page_bit p h pn = test_bit (header p h (8 + pn / 8)) (pn % 8)

-- `check_file_id` with `open_file_[file_id]`, which every caller reads next.
unfoldable pub check_file_id : {S : Type 0} → ℕ → Io S FileHandle
check_file_id file_id p =
    if leb max_open_file file_id
    then (err bufferpool_illegal_file_id, p)
    else elim (p.open_file file_id) [
      | none ↦ (err bufferpool_illegal_file_id, p)
      | some h ↦ (ok h, p)
    ]

unfoldable pub check_page_num : {S : Type 0} → ℕ → FileHandle → Io S (Unit {0})
unfolding test_bit load_int
check_page_num pn h p =
    if leb (page_count p h) pn
    then (err bufferpool_invalid_page_num, p)
    else if page_bit p h pn
    then (ok tt, p)
    else (err bufferpool_invalid_page_num, p)

module _ (os : Os) where
  abbrev P : Type 0
  P = Pool os.State

  -- The write of `flush_block`, after the seek.
  unfoldable pub write_block : ℕ → P → os.State → Result (Unit {0}) × P
  unfolding with_frame
  write_block f p sys =
      let frame = frame_of p f in
      let (done, sys') = os.sys_write sys frame.file_desc frame.page in
      if done
      then (ok tt, with_frame (record p { sys = sys' }) f (record frame { dirty = false }))
      else (err ioerr_write, record p { sys = sys' })

  -- `flush_block`. The result of `lseek` is compared with `offset - 1`, which is the -1 of a
  -- failure at the offset 0 only; after a failure elsewhere the write goes on.
  unfoldable pub flush_block : ℕ → Io os.State (Unit {0})
  unfolding write_block
  flush_block f p =
      let frame = frame_of p f in
      let off = frame.page.page_num * page_size in
      elim (os.sys_lseek p.sys frame.file_desc off) [
        | none ↦ if off == 0 then (err ioerr_seek, p) else write_block f p p.sys
        | some sys ↦ write_block f p sys
      ]

  -- `allocate_block` once a frame is found.
  unfoldable pub clean_block : ℕ → Io os.State ℕ
  unfolding flush_block
  clean_block f p = if (frame_of p f).dirty then (flush_block f >> pure f) p else (ok f, p)

  -- `allocate_block` after `alloc`.
  unfoldable pub block_from : P → Option ℕ × BpManager → Result ℕ × P
  unfolding clean_block
  block_from p (none, manager) = (err nomem, record p { manager = manager })
  block_from p (some f, manager) = clean_block f (record p { manager = manager })

  unfoldable pub allocate_block : Io os.State ℕ
  unfolding block_from alloc
  allocate_block p = block_from p (alloc p.manager)

  -- The end of `dispose_block`.
  unfoldable pub release_block : ℕ → Io os.State (Unit {0})
  unfolding with_frame delete_frame
  release_block f p =
      let frame = record (frame_of p f) { dirty = false } in
      let p' = with_frame p f frame in
      (ok tt, record p' { manager = delete_frame p'.manager frame.file_desc frame.page.page_num f })

  unfoldable pub dispose_block : ℕ → Io os.State (Unit {0})
  unfolding flush_block release_block
  dispose_block f p =
      if not ((frame_of p f).pin_count == 0)
      then (err locked_unlock, p)
      else if (frame_of p f).dirty
      then (flush_block f >> release_block f) p
      else release_block f p

  -- `load_page`. A read that fails may have written part of the page: its frame is given up then.
  unfoldable pub load_page : ℕ → FileHandle → ℕ → Io os.State (Unit {0})
  unfolding with_frame
  load_page pn h f p = elim (os.sys_lseek p.sys h.file_desc (pn * page_size)) [
    | none ↦ (err ioerr_seek, p)
    | some sys ↦
        let (page, sys') = os.sys_read sys h.file_desc in
        elim page [
          | none ↦ (err ioerr_read, record p { sys = sys' })
          | some pg ↦
              (ok tt, with_frame (record p { sys = sys' }) f (record (frame_of p f) { page = pg }))
        ]
  ]
