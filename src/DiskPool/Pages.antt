-- ===== src/DiskPool/Pages.antt =====
-- The methods of DiskBufferPool in disk_buffer_pool.cpp that work on one page.
use atangyldb.Base.{
  ℕ, zero, suc, ◌+◌, ◌-◌, ◌/◌, ◌%◌, ◌^◌, true, false, not, Option, none, some, if◌then◌else◌, ◌==◌,
  ltb,
}
use atangyldb.Base.Bits.{test_bit, raise_bit, drop_bit}
use atangyldb.Memory.{Bytes, load_int, store_int, store_byte}
use atangyldb.BufferManager.{Frame, get_frame, add_page_table, delete_frame}
use atangyldb.LruReplacer.{pin, unpin}
use atangyldb.Rc.{Rc, Result, ok, err, undefined, bufferpool_closed, bufferpool_page_pinned}
use atangyldb.DiskPool.{
  Os, FileHandle, Pool, PageHandle, Io, ◌>>=◌, ◌>>◌, pure, frame_of, with_frame, inc_pin, dec_pin,
}
use atangyldb.DiskPool.Calls.{
  header, page_count, allocated_pages, check_file_id, check_page_num, flush_block, allocate_block,
  dispose_block, load_page,
}

-- `hdr_frame` with new bytes in its page.
unfoldable pub write_header : {S : Type 0} → Pool S → FileHandle → Bytes → Pool S
unfolding with_frame
write_header p h bytes =
    let frame = frame_of p h.hdr_frame in
    with_frame p h.hdr_frame (record frame { page = record (frame.page) { bytes = bytes } })

unfoldable pub mark_header_dirty : {S : Type 0} → Pool S → FileHandle → Pool S
unfolding with_frame
mark_header_dirty p h = with_frame p h.hdr_frame (record (frame_of p h.hdr_frame) { dirty = true })

-- `file_handle->bitmap[pn / 8] |= (1 << (pn % 8))`, and `&= ~(1 << (pn % 8))`
unfoldable pub raise_page_bit : Bytes → ℕ → Bytes
raise_page_bit m pn = store_byte m (8 + pn / 8) (raise_bit (m (8 + pn / 8)) (pn % 8))

unfoldable pub drop_page_bit : Bytes → ℕ → Bytes
drop_page_bit m pn = store_byte m (8 + pn / 8) (drop_bit (m (8 + pn / 8)) (pn % 8))

-- The loop of `allocate_page` over the pages of the file, from `i` on: the first page whose bit is
-- not set.
unfoldable pub find_free_page : ℕ → Bytes → ℕ → Option ℕ
unfolding test_bit
find_free_page zero m i = none
find_free_page (suc n) m i =
    let rest = find_free_page n m (i + 1) in
    if test_bit (m (8 + i / 8)) (i % 8) then rest else some i

-- `++allocated_pages` on an `int` of the header.
unfoldable pub count_page : Bytes → Bytes
unfolding load_int store_int
count_page m = store_int m 4 (load_int m 4 + 1)

-- The page is in the pool: one more pin, and out of the replacer.
unfoldable pub repin : {S : Type 0} → ℕ → Pool S → Pool S
unfolding with_frame inc_pin pin
repin f p =
    let p' = with_frame p f (inc_pin (frame_of p f)) in
    record p' { manager = record (p'.manager) { replacer = pin p'.manager.replacer f } }

-- The fields that are set before a page is loaded into its frame.
unfoldable pub claim_frame : {S : Type 0} → ℕ → ℕ → Pool S → Pool S
unfolding with_frame
claim_frame fd f p =
    with_frame p f (record (frame_of p f) { dirty = false; file_desc = fd; pin_count = 1 })

-- `AddPageTable(fd, pn, GetFrameID(frame))`
unfoldable pub enter_page : {S : Type 0} → ℕ → ℕ → ℕ → Pool S → Pool S
unfolding add_page_table
enter_page fd pn f p = record p { manager = add_page_table p.manager fd pn f }

module _ (os : Os) where
  abbrev P : Type 0
  P = Pool os.State

  -- The pin count is reset and the frame disposed of, and the first error is returned.
  unfoldable pub give_up : ℕ → Rc → PageHandle → P → Result (Unit {0}) × PageHandle × P
  unfolding with_frame dispose_block
  give_up f e ph p =
      let p' = with_frame p f (record (frame_of p f) { pin_count = 0 }) in
      (err e, ph, (dispose_block os f p').1)

  -- `get_this_page` after `load_page`.
  unfoldable pub loaded :
      ℕ → ℕ → ℕ → PageHandle → Result (Unit {0}) × P → Result (Unit {0}) × PageHandle × P
  unfolding enter_page give_up
  loaded fd pn f ph (ok u, p) =
      (ok tt, record { is_open = true; frame = some f }, enter_page fd pn f p)
  loaded fd pn f ph (err e, p) = give_up f e (record ph { frame = some f }) p
  loaded fd pn f ph (undefined, p) = (undefined, ph, p)

  -- `get_this_page` after `allocate_block`.
  unfoldable pub fetch :
      ℕ → FileHandle → PageHandle → Result ℕ × P → Result (Unit {0}) × PageHandle × P
  unfolding loaded load_page claim_frame
  fetch pn h ph (ok f, p) =
      loaded h.file_desc pn f ph (load_page os pn h f (claim_frame h.file_desc f p))
  fetch pn h ph (err e, p) = (err e, ph, p)
  fetch pn h ph (undefined, p) = (undefined, ph, p)

  -- `get_this_page` after its two checks.
  unfoldable pub pin_or_fetch : ℕ → FileHandle → PageHandle → P → Result (Unit {0}) × PageHandle × P
  unfolding repin fetch allocate_block get_frame
  pin_or_fetch pn h ph p = elim (get_frame p.manager h.file_desc pn) [
    | some f ↦ (ok tt, record { is_open = true; frame = some f }, repin f p)
    | none ↦ fetch pn h ph (allocate_block os p)
  ]

  unfoldable pub checked :
      ℕ → PageHandle → Result FileHandle × P → Result (Unit {0}) × PageHandle × P
  unfolding pin_or_fetch
  checked pn ph (ok h, p) = pin_or_fetch pn h ph p
  checked pn ph (err e, p) = (err e, ph, p)
  checked pn ph (undefined, p) = (undefined, ph, p)

  -- `get_this_page`: the result, the handle and the pool.
  unfoldable pub get_this_page : ℕ → ℕ → PageHandle → P → Result (Unit {0}) × PageHandle × P
  unfolding checked check_file_id check_page_num
  get_this_page file_id pn ph p =
      checked pn ph ((check_file_id file_id >>= λ h. check_page_num pn h >> pure h) p)

  -- The part of `allocate_page` that makes the file longer, after `allocate_block`.
  unfoldable pub extend_file :
      FileHandle → PageHandle → Result ℕ × P → Result (Unit {0}) × PageHandle × P
  unfolding write_header mark_header_dirty count_page raise_page_bit enter_page with_frame load_int
      store_int flush_block
  extend_file h ph (ok f, p) =
      let pn = page_count p h in
      let m = count_page (header p h) in
      let p₁ = write_header p h (raise_page_bit (store_int m 0 (load_int m 0 + 1)) pn) in
      let p₂ = mark_header_dirty p₁ h in
      let frame : Frame = record {
        dirty = false;
        pin_count = 1;
        acc_time = os.sys_now p₂.sys;
        file_desc = h.file_desc;
        page = record { page_num = page_count p₂ h - 1; bytes = λ _. 0 };
      } in
      let p₃ = enter_page h.file_desc (page_count p₂ h - 1) f (with_frame p₂ f frame) in
      let (flushed, p₄) = flush_block os f p₃ in
      elim flushed [
        | ok u ↦ (ok tt, record { is_open = true; frame = some f }, p₄)
        | err e ↦ (err e, record ph { frame = some f }, p₄)
        | undefined ↦ (undefined, ph, p₄)
      ]
  extend_file h ph (err e, p) = (err e, ph, p)
  extend_file h ph (undefined, p) = (undefined, ph, p)

  unfoldable pub allocate_in :
      ℕ → FileHandle → PageHandle → Option ℕ → P → Result (Unit {0}) × PageHandle × P
  unfolding write_header count_page raise_page_bit get_this_page extend_file allocate_block
  allocate_in file_id h ph (some i) p =
      get_this_page file_id i ph (write_header p h (raise_page_bit (count_page (header p h)) i))
  allocate_in file_id h ph none p = extend_file h ph (allocate_block os p)

  -- `allocate_page`
  unfoldable pub allocate_page : ℕ → PageHandle → P → Result (Unit {0}) × PageHandle × P
  unfolding check_file_id find_free_page allocate_in
  allocate_page file_id ph p =
      let (found, p') = check_file_id file_id p in
      elim found [
        | err e ↦ (err e, ph, p')
        | undefined ↦ (undefined, ph, p')
        | ok h ↦
            let free : Option ℕ =
              if ltb (allocated_pages p' h) (page_count p' h)
              then find_free_page (page_count p' h) (header p' h) 0
              else none in
            allocate_in file_id h ph free p'
      ]

  -- `dispose_page` after its two checks.
  unfoldable pub dispose_frame : ℕ → FileHandle → Io os.State (Unit {0})
  unfolding get_frame delete_frame mark_header_dirty write_header drop_page_bit store_int load_int
  dispose_frame pn h p = elim (get_frame p.manager h.file_desc pn) [
    | none ↦ (err bufferpool_page_pinned, p)
    | some f ↦
        if not ((frame_of p f).pin_count == 0)
        then (err bufferpool_page_pinned, p)
        else (let p₁ = record p { manager = delete_frame p.manager h.file_desc pn f } in
            let p₂ = mark_header_dirty p₁ h in
            let m = header p₂ h in
            let m' = store_int m 4 ((load_int m 4 + 2 ^ 32 - 1) % 2 ^ 32) in
            (ok tt, write_header p₂ h (drop_page_bit m' pn)))
  ]

  unfoldable pub dispose_page : ℕ → ℕ → Io os.State (Unit {0})
  unfolding check_file_id check_page_num dispose_frame
  dispose_page file_id pn = do h ← check_file_id file_id; check_page_num pn h; dispose_frame pn h

unfoldable pub get_page_count : {S : Type 0} → ℕ → Io S ℕ
unfolding check_file_id load_int
get_page_count file_id = do h ← check_file_id file_id; λ p. (ok (page_count p h), p)

-- `get_page_num`; a null frame is not dereferenced by an open handle.
unfoldable pub get_page_num : {S : Type 0} → PageHandle → Io S ℕ
get_page_num ph p =
    if not ph.is_open
    then (err bufferpool_closed, p)
    else elim ph.frame [ none ↦ (undefined, p) | some f ↦ (ok (frame_of p f).page.page_num, p) ]

-- `get_data`: the frame whose page holds the bytes.
unfoldable pub get_data : {S : Type 0} → PageHandle → Io S ℕ
get_data ph p =
    if not ph.is_open
    then (err bufferpool_closed, p)
    else elim ph.frame [ none ↦ (undefined, p) | some f ↦ (ok f, p) ]

unfoldable pub mark_dirty : {S : Type 0} → PageHandle → Io S (Unit {0})
unfolding with_frame
mark_dirty ph p = elim ph.frame [
  | none ↦ (undefined, p)
  | some f ↦ (ok tt, with_frame p f (record (frame_of p f) { dirty = true }))
]

-- `unpin_page`: the handle is closed, and the frame may be evicted once its last pin is gone.
unfoldable pub release_pin : {S : Type 0} → ℕ → Pool S → Pool S
unfolding with_frame dec_pin unpin
release_pin f p =
    let p' = with_frame p f (dec_pin (frame_of p f)) in
    if (frame_of p' f).pin_count == 0
    then record p' { manager = record (p'.manager) { replacer = unpin p'.manager.replacer f } }
    else p'

unfoldable pub unpin_page :
    {S : Type 0} → PageHandle → Pool S → Result (Unit {0}) × PageHandle × Pool S
unfolding release_pin
unpin_page ph p = elim ph.frame [
  | none ↦ (undefined, ph, p)
  | some f ↦ (ok tt, record ph { is_open = false }, release_pin f p)
]
