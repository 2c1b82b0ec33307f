-- ===== src/DiskPool/Open.antt =====
-- The constructor and `open_file` of disk_buffer_pool.cpp: a pool that starts coherent, and what
-- opening a file leaves.
use Prim.Native.String.{String}
use text.Mathlib.TextPositions.{eq_refl}
use atangyldb.Base.{
  ℕ, ◌≡◌, ◌≢◌, refl, sym, ap, subst, ◌∙◌, false, Option, none, some, List, [], ◌∷◌, ◌==◌, arith,
  ==-self,
}
use atangyldb.BufferManager.{Page, Frame, lookup}
use atangyldb.BufferManager.Moves.{new_manager-IsManaged}
use atangyldb.LruReplacer.Refine.{view}
use atangyldb.Rc.{Result, ok, err, undefined, nomem}
use atangyldb.DiskPool.{Os, FileHandle, Pool}
use atangyldb.DiskPool.Calls.{allocate_block}
use atangyldb.DiskPool.Pages.{claim_frame, enter_page}
use atangyldb.DiskPool.Files.{
  new_pool, set_open_file, set_name_id, register, opened, open_header, open_new, open_file_named,
}
use atangyldb.DiskPool.Coherent.{IsReliable, IsCoherent, content}
use atangyldb.DiskPool.Evict.{Evicted, BlockOutcome, allocate_block-Evicted}
use atangyldb.DiskPool.Pinned.{Pinned, content_at}
use atangyldb.DiskPool.Fetch.{load_page-Pinned}

module _ (os : Os) (device : IsReliable os) where
  abbrev P : Type 0
  P = Pool os.State

  -- A new pool is coherent, if the memory of its frames was clean. The constructor does not see to
  -- that: it leaves the dirty marks as they were.
  pub new_pool-IsCoherent :
      (size : ℕ) (memory : ℕ → Frame) (s : os.State)
      → ((f : ℕ) → (memory f).dirty ≡ false)
      → IsCoherent os device (new_pool size memory s)
  unfolding new_pool lookup
  new_pool-IsCoherent size memory s h = record {
    managed = new_manager-IsManaged size memory;
    clean = λ fd pn f k. absurd (cc);
    free_clean = λ f k. h f;
  }

  -- What opening the file `name` on the free descriptor `fd` came to, whose header page is `page`.
  pub record Opened (p : P) (name : String) (fd id : ℕ) (page : Page) (p' : P) : Type 0 where
    pub handle : FileHandle
    pub is_open : p'.open_file id ≡ some handle
    pub named : p'.file_name_id name ≡ some id
    pub on : handle.file_desc ≡ fd
    pub others : (i : ℕ) → i ≢ id → p'.open_file i ≡ p.open_file i
    pub header : Pinned os device p fd 0 page handle.hdr_frame p'

  abbrev pub OpenOutcome : P → String → ℕ → ℕ → Page → Result ℕ × P → Type 0
  OpenOutcome p name fd id page (ok i, p') = (i ≡ id) × Opened p name fd id page p'
  OpenOutcome p name fd id page (err e, p') =
      (e ≡ nomem) × (p.manager.free_list ≡ []) × (view p.manager.replacer ≡ [])
  OpenOutcome p name fd id page (undefined, p') = ⊥

  -- The maps of the open files do not matter to what the pool holds.
  refiled :
      (p p' : P) (fd pn f : ℕ) (page : Page)
      → Pinned os device p fd pn page f p'
      → (ids : List ℕ) (handles : ℕ → Option FileHandle) (names : String → Option ℕ)
      → Pinned os device p fd pn page f
          (record p' { free_file_ids = ids; open_file = handles; file_name_id = names })
  refiled p p' fd pn f page l ids handles names = record {
    coherent = record {
      managed = l.coherent.managed;
      clean = l.coherent.clean;
      free_clean = l.coherent.free_clean;
    };
    keeps = l.keeps;
    holds = l.holds;
    shows = l.shows;
    safe = l.safe;
  }

  -- The end of `open_file`: the header is entered, and the handle registered under the first id.
  headed :
      (p p₁ : P) (name : String) (fd f id : ℕ) (ids : List ℕ) (page : Page)
      → content os device p fd 0 ≡ some page
      → page.page_num ≡ 0
      → lookup fd 0 p.manager.page_table ≡ none
      → p.free_file_ids ≡ id ∷ ids
      → Evicted os device p f p₁
      → OpenOutcome p name fd id page (open_header os name fd (ok f, p₁))
  unfolding open_header opened register enter_page set_open_file set_name_id claim_frame
  headed p p₁ name fd f id ids page e epn new free ev =
      let h : FileHandle = record { file_name = name; file_desc = fd; hdr_frame = f } in
      let (p₃, done, pinned, same) = load_page-Pinned os device p p₁ h 0 f page e epn new ev in
      let ids' : p₃.free_file_ids ≡ id ∷ ids = same.ids ∙ free in
      let handles = set_open_file p₃.open_file id (some h) in
      let names = set_name_id p₃.file_name_id name (some id) in
      let p' : P = record (enter_page fd 0 f p₃) {
        free_file_ids = ids;
        open_file = handles;
        file_name_id = names;
      } in
      let run : opened os name h (ok tt, p₃) ≡ (ok id, p') = rw (opened, ids') refl in
      subst (OpenOutcome p name fd id page) (sym (ap (opened os name h) done ∙ run)) (
        refl,
        record {
          handle = h;
          is_open = rw ==-self refl;
          named = rw (eq_refl name) refl;
          on = refl;
          others = λ i n.
              let apart : (id == i) ≡ false = ground arith in
              rw apart (ap (λ (m : ℕ → Option FileHandle). m i) same.handles);
          header = refiled p (enter_page fd 0 f p₃) fd 0 f page pinned ids handles names;
        },
      )

  block_headed :
      (p : P) (r : Result ℕ × P) (name : String) (fd id : ℕ) (ids : List ℕ) (page : Page)
      → content os device p fd 0 ≡ some page
      → page.page_num ≡ 0
      → lookup fd 0 p.manager.page_table ≡ none
      → p.free_file_ids ≡ id ∷ ids
      → BlockOutcome os device p r
      → OpenOutcome p name fd id page (open_header os name fd r)
  unfolding open_header
  block_headed p (ok f, p₁) name fd id ids page e epn new free b =
      headed p p₁ name fd f id ids page e epn new free b
  block_headed p (err x, p₁) name fd id ids page e epn new free b = b
  block_headed p (undefined, p₁) name fd id ids page e epn new free b = absurd b

  -- `open_file` of a file that is not open yet, with an id left, when the system gives the descriptor
  -- `fd`, the pool has no page of `fd`, and the file has a header page: the first free id names the
  -- file from then on, the other files stay open, the header's frame shows the header and is safe
  -- from eviction, no page that can be read changes, and the pool stays coherent. The one error is
  -- NOMEM, when no frame is free and none can be evicted.
  pub open_file_named-outcome :
      (p : P) (name : String) (fd id : ℕ) (ids : List ℕ) (s : os.State) (page : Page)
      → IsCoherent os device (record p { sys = s })
      → p.file_name_id name ≡ none
      → p.free_file_ids ≡ id ∷ ids
      → os.sys_open p.sys name ≡ (some fd, s)
      → lookup fd 0 p.manager.page_table ≡ none
      → device.stored s fd 0 ≡ some page
      → page.page_num ≡ 0
      → OpenOutcome (record p { sys = s }) name fd id page (open_file_named os name p)
  unfolding open_file_named open_new
  open_file_named-outcome p name fd id ids s page c unnamed free opens new file epn =
      let p' : P = record p { sys = s } in
      let pick : open_file_named os name p ≡ open_new os name p =
        simp (open_file_named, unnamed, free) in
      let run : open_new os name p ≡ open_header os name fd (allocate_block os p') =
        rw (open_new, ap (λ r. r.0) opens, ap (λ r. r.1) opens) refl in
      subst (OpenOutcome p' name fd id page) (sym (pick ∙ run)) (
        block_headed p' (allocate_block os p') name fd id ids page
          (content_at os device p' fd 0 none new ∙ file) epn new free
          (allocate_block-Evicted os device p' c))
