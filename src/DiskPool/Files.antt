-- ===== src/DiskPool/Files.antt =====
-- The methods of DiskBufferPool in disk_buffer_pool.cpp that work on a file: creating, opening,
-- flushing and closing.
use Prim.Native.String.{String}
use text.Mathlib.Text.{◌==◌ as str_eq}
use atangyldb.Base.{ℕ, false, not, Option, none, some, if◌then◌else◌, ◌==◌, List, [], ◌∷◌, ◌++◌}
use atangyldb.Base.Bits.{raise_bit}
use atangyldb.Memory.{store_int, store_byte}
use atangyldb.BufferManager.{Page, Frame, Entry, get_frame, delete_frame, frame_ids, new_manager}
use atangyldb.Rc.{
  Result, ok, err, undefined, bufferpool_page_pinned, bufferpool_open_too_many_files, ioerr_access,
  ioerr_close, ioerr_seek, ioerr_write, schema_db_exist, ioerr,
}
use atangyldb.DiskPool.{
  Os, FileHandle, Pool, Io, ◌>>=◌, ◌>>◌, pure, frame_of, with_frame, inc_pin, dec_pin,
  max_open_file,
}
use atangyldb.DiskPool.Calls.{check_file_id, flush_block, allocate_block, dispose_block, load_page}
use atangyldb.DiskPool.Pages.{enter_page}

-- `new DiskBufferPool`, with all file ids free.
unfoldable pub new_pool : {S : Type 0} → ℕ → (ℕ → Frame) → S → Pool S
unfolding new_manager frame_ids
new_pool size memory sys = record {
  manager = new_manager size memory;
  free_file_ids = frame_ids 0 max_open_file;
  open_file = λ _. none;
  file_name_id = λ _. none;
  sys = sys;
}

unfoldable pub set_open_file :
    (ℕ → Option FileHandle) → ℕ → Option FileHandle → ℕ → Option FileHandle
set_open_file m i v j = if i == j then v else m j

unfoldable pub set_name_id : (String → Option ℕ) → String → Option ℕ → String → Option ℕ
set_name_id m i v j = if str_eq i j then v else m j

-- The entries of one file, in the order of the iteration.
unfoldable pub entries_of : ℕ → List Entry → List Entry
entries_of fd [] = []
entries_of fd (e ∷ es) = if e.fd == fd then e ∷ entries_of fd es else entries_of fd es

-- The header page of a new file: one page, allocated.
abbrev pub header_page : Page
header_page = record {
  page_num = 0;
  bytes = let m = store_int (store_int (λ _. 0) 4 1) 0 1 in store_byte m 8 (raise_bit (m 8) 0);
}

module _ (os : Os) where
  abbrev P : Type 0
  P = Pool os.State

  -- `create_file`, which works on the files alone; an error of `close` is not looked at.
  unfoldable pub write_new_file : ℕ → os.State → Result (Unit {0}) × os.State
  write_new_file fd sys = elim (os.sys_lseek sys fd 0) [
    | none ↦ (err ioerr_seek, (os.sys_close sys fd).1)
    | some sys₁ ↦
        let (done, sys₂) = os.sys_write sys₁ fd header_page in
        (if done then ok tt else err ioerr_write, (os.sys_close sys₂ fd).1)
  ]

  unfoldable pub create_file : String → Io os.State (Unit {0})
  unfolding write_new_file
  create_file name p =
      let (created, sys₁) = os.sys_create p.sys name in
      elim created [
        | none ↦ (err schema_db_exist, record p { sys = sys₁ })
        | some fd ↦
            let (opened, sys₂) = os.sys_open (os.sys_close sys₁ fd).1 name in
            elim opened [
              | none ↦ (err ioerr_access, record p { sys = sys₂ })
              | some fd' ↦ let (r, sys₃) = write_new_file fd' sys₂ in (r, record p { sys = sys₃ })
            ]
      ]

  unfoldable pub drop_file : String → Io os.State (Unit {0})
  drop_file name p =
      let (done, sys) = os.sys_unlink p.sys name in
      (if done then ok tt else err ioerr, record p { sys = sys })

  abbrev pub close_fd : ℕ → P → P
  close_fd fd p = record p { sys = (os.sys_close p.sys fd).1 }

  -- `open_file` once the header is loaded: the first free id, the two maps.
  unfoldable pub register : String → FileHandle → List ℕ → Io os.State ℕ
  unfolding set_open_file set_name_id
  register name h [] p = (undefined, p)
  register name h (id ∷ ids) p = (
    ok id,
    record p {
      free_file_ids = ids;
      open_file = set_open_file p.open_file id (some h);
      file_name_id = set_name_id p.file_name_id name (some id);
    },
  )

  -- `open_file` after `load_page`.
  unfoldable pub opened : String → FileHandle → Result (Unit {0}) × P → Result ℕ × P
  unfolding register enter_page dispose_block with_frame
  opened name h (ok u, p) =
      let p' = enter_page h.file_desc 0 h.hdr_frame p in register name h p'.free_file_ids p'
  opened name h (err e, p) =
      let p₁ = with_frame p h.hdr_frame (record (frame_of p h.hdr_frame) { pin_count = 0 }) in
      (err e, close_fd h.file_desc (dispose_block os h.hdr_frame p₁).1)
  opened name h (undefined, p) = (undefined, p)

  -- `open_file` after `allocate_block`.
  unfoldable pub open_header : String → ℕ → Result ℕ × P → Result ℕ × P
  unfolding opened load_page with_frame
  open_header name fd (ok f, p) =
      let h : FileHandle = record { file_name = name; file_desc = fd; hdr_frame = f } in
      let frame = record (frame_of p f) { dirty = false; file_desc = fd; pin_count = 1 } in
      opened name h (load_page os 0 h f (with_frame p f frame))
  open_header name fd (err e, p) = (err e, close_fd fd p)
  open_header name fd (undefined, p) = (undefined, p)

  -- The body of `open_file` for a file that is not open.
  unfoldable pub open_new : String → Io os.State ℕ
  unfolding open_header allocate_block
  open_new name p =
      let (fd, sys) = os.sys_open p.sys name in
      let p' = record p { sys = sys } in
      elim fd [
        | none ↦ (err ioerr_access, p')
        | some fd ↦ open_header name fd (allocate_block os p')
      ]

  unfoldable pub open_file_named : String → Io os.State ℕ
  unfolding open_new
  open_file_named name p = elim (p.file_name_id name) [
    | some id ↦ (ok id, p)
    | none ↦ elim p.free_file_ids [
      | [] ↦ (err bufferpool_open_too_many_files, p)
      | id ∷ ids ↦ open_new name p
    ]
  ]

  -- The first loop of `force_all_pages`: it flushes each dirty page of the file, and remembers its
  -- frame id twice, where the page number was meant to come first.
  unfoldable pub flush_dirty : List Entry → Io os.State (List (ℕ × ℕ))
  unfolding flush_block
  flush_dirty [] p = (ok [], p)
  flush_dirty (e ∷ es) p =
      let rest = flush_dirty es in
      if (frame_of p e.frame).dirty
      then (do flush_block os e.frame; more ← rest; pure ((e.frame, e.frame) ∷ more)) p
      else rest p

  -- The second loop: flushes again, with no look at the result, and frees the frame.
  unfoldable pub free_pages : ℕ → List (ℕ × ℕ) → P → P
  unfolding flush_block delete_frame
  free_pages fd [] p = p
  free_pages fd ((pn, f) ∷ es) p =
      let p₁ = (flush_block os f p).1 in
      free_pages fd es (record p₁ { manager = delete_frame p₁.manager fd pn f })

  unfoldable pub force_all_pages : FileHandle → Io os.State (Unit {0})
  unfolding entries_of flush_dirty free_pages
  force_all_pages h p =
      (flush_dirty (entries_of h.file_desc p.manager.page_table) >>= λ freed p'.
      (ok tt, free_pages h.file_desc freed p'))
        p

  unfoldable pub flush_all_pages : ℕ → Io os.State (Unit {0})
  unfolding check_file_id force_all_pages
  flush_all_pages file_id = do h ← check_file_id file_id; force_all_pages h

  -- `force_page` of one page.
  unfoldable pub force_frame : FileHandle → ℕ → Io os.State (Unit {0})
  unfolding get_frame flush_block delete_frame
  force_frame h pn p = elim (get_frame p.manager h.file_desc pn) [
    | none ↦ (ok tt, p)
    | some f ↦
        let free : Io os.State (Unit {0}) =
          λ q. (ok tt, record q { manager = delete_frame q.manager h.file_desc pn f }) in
        if not ((frame_of p f).pin_count == 0)
        then (err bufferpool_page_pinned, p)
        else if (frame_of p f).dirty
        then (flush_block os f >> free) p
        else free p
  ]

  -- The first loop of `force_page` without a page number.
  unfoldable pub flush_unpinned : List Entry → Io os.State (List (ℕ × ℕ))
  unfolding flush_block
  flush_unpinned [] p = (ok [], p)
  flush_unpinned (e ∷ es) p =
      let rest = flush_unpinned es >>= λ more. pure ((e.pn, e.frame) ∷ more) in
      if not ((frame_of p e.frame).pin_count == 0)
      then (err bufferpool_page_pinned, p)
      else if (frame_of p e.frame).dirty
      then (flush_block os e.frame >> rest) p
      else rest p

  -- `force_page`; the page number -1 is `none`.
  unfoldable pub force_page : ℕ → Option ℕ → Io os.State (Unit {0})
  unfolding check_file_id force_frame flush_unpinned free_pages entries_of
  force_page file_id pn = do
    h ← check_file_id file_id
    elim pn [
      | some pn ↦ force_frame h pn
      | none ↦ λ p.
          (flush_unpinned (entries_of h.file_desc p.manager.page_table) >>= λ freed p'.
          (ok tt, free_pages h.file_desc freed p'))
            p
    ]

  -- `close_file` once the pages are out.
  unfoldable pub close_handle : ℕ → FileHandle → Io os.State (Unit {0})
  unfolding set_open_file set_name_id
  close_handle file_id h p =
      let (done, sys) = os.sys_close p.sys h.file_desc in
      if done
      then (
        ok tt,
        record p {
          free_file_ids = p.free_file_ids ++ file_id ∷ [];
          open_file = set_open_file p.open_file file_id none;
          file_name_id = set_name_id p.file_name_id h.file_name none;
          sys = sys;
        },
      )
      else (err ioerr_close, record p { sys = sys })

  unfoldable pub close_file : ℕ → Io os.State (Unit {0})
  unfolding check_file_id force_all_pages close_handle with_frame dec_pin inc_pin
  close_file file_id = do
    h ← check_file_id file_id
    λ p.
        let p₁ = with_frame p h.hdr_frame (dec_pin (frame_of p h.hdr_frame)) in
        let (forced, p₂) = force_all_pages h p₁ in
        elim forced [
          | ok u ↦ close_handle file_id h p₂
          | err e ↦ (err e, with_frame p₂ h.hdr_frame (inc_pin (frame_of p₂ h.hdr_frame)))
          | undefined ↦ (undefined, p₂)
        ]
