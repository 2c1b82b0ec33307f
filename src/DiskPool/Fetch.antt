-- ===== src/DiskPool/Fetch.antt =====
-- `get_this_page` of disk_buffer_pool.cpp: whoever asks for a page gets it as it was last written,
-- from the pool or from the file.
use atangyldb.Base.{
  ℕ, ◌<◌, ◌≡◌, leb, refl, sym, ap, subst, ◌∙◌, inl, inr, true, false, none, some, [], arith,
  Option-cases,
}
use atangyldb.BufferManager.{Page, Frame, set_frame, lookup, get_frame}
use atangyldb.LruReplacer.Refine.{view}
use atangyldb.Rc.{Result, ok, err, undefined, nomem}
use atangyldb.DiskPool.{Os, max_open_file, FileHandle, Pool, PageHandle, frame_of, with_frame}
use atangyldb.DiskPool.Calls.{
  check_file_id, check_page_num, page_count, page_bit, load_page, allocate_block,
}
use atangyldb.DiskPool.Pages.{
  repin, claim_frame, enter_page, loaded, fetch, pin_or_fetch, checked, get_this_page,
}
use atangyldb.DiskPool.Coherent.{IsReliable, IsCoherent, content, Keeps}
use atangyldb.DiskPool.Evict.{SameFiles, Evicted, BlockOutcome, allocate_block-Evicted}
use atangyldb.DiskPool.Pinned.{
  Pinned, repin-Pinned, load_page-loads, IsLoose-write, enter_page-Pinned, Pinned-after, at_frame,
  content_at,
}

module _ (os : Os) (device : IsReliable os) where
  abbrev P : Type 0
  P = Pool os.State

  -- What a request for the page `pn` of `fd`, with the content `page`, came to.
  abbrev pub FetchOutcome : P → ℕ → ℕ → Page → Result (Unit {0}) × PageHandle × P → Type 0
  FetchOutcome p fd pn page (ok u, ph, p') =
      (f : ℕ) × (ph ≡ record { is_open = true; frame = some f })
      × Pinned os device p fd pn page f p'
  FetchOutcome p fd pn page (err e, ph, p') =
      (e ≡ nomem)
      × (lookup fd pn p.manager.page_table ≡ none)
      × (p.manager.free_list ≡ [])
      × (view p.manager.replacer ≡ [])
  FetchOutcome p fd pn page (undefined, ph, p') = ⊥

  -- Loading the page into the frame that was found for it, and entering it.
  pub load_page-Pinned :
      (p p₁ : P) (h : FileHandle) (pn f : ℕ) (page : Page)
      → content os device p h.file_desc pn ≡ some page
      → page.page_num ≡ pn
      → lookup h.file_desc pn p.manager.page_table ≡ none
      → Evicted os device p f p₁
      → (p₃ : P) × (load_page os pn h f (claim_frame h.file_desc f p₁) ≡ (ok tt, p₃))
        × Pinned os device p h.file_desc pn page f (enter_page h.file_desc pn f p₃)
        × SameFiles os device p p₃
  unfolding claim_frame with_frame set_frame
  load_page-Pinned p p₁ h pn f page e epn new ev =
      let fd : ℕ = h.file_desc in
      let claimed : Frame = record (frame_of p₁ f) {
        dirty = false;
        file_desc = fd;
        pin_count = 1;
      } in
      let new₁ = ev.absent fd pn new in
      let file₁ : device.stored p₁.sys fd pn ≡ some page =
        sym (content_at os device p₁ fd pn none new₁) ∙ ev.keeps fd pn page e in
      let w₁ =
        IsLoose-write os device p₁ f p₁.sys claimed ev.coherent ev.loose refl (λ _ _. refl) in
      let p₂ : P = claim_frame fd f p₁ in
      let (s, done, same) = load_page-loads os device pn h f p₂ page file₁ in
      let filled : Frame = record (frame_of p₂ f) { page = page } in
      let at₂ = at_frame os device p₁.manager.frames f claimed in
      let w₂ =
        IsLoose-write os device p₂ f s filled w₁.0 w₁.1 (ap (λ (x : Frame). x.dirty) at₂) same in
      let at₃ = at_frame os device p₂.manager.frames f filled in
      let p₃ : P = with_frame (record p₂ { sys = s }) f filled in
      let pinned =
        enter_page-Pinned os device p₃ fd pn f page w₂.0 w₂.1
          (ap (λ (x : Frame). x.file_desc) at₃ ∙ ap (λ (x : Frame). x.file_desc) at₂)
          (ap (λ (x : Frame). x.page) at₃) epn new₁ (same fd pn ∙ file₁) in
      let keeps : Keeps os device p p₃ =
        λ fd' pn' pg k. w₂.2 fd' pn' pg (w₁.2 fd' pn' pg (ev.keeps fd' pn' pg k)) in
      (
        p₃,
        done,
        Pinned-after os device p p₃ (enter_page fd pn f p₃) fd pn f page keeps pinned,
        record {
          ids = ev.same_files.ids;
          handles = ev.same_files.handles;
          names = ev.same_files.names;
        },
      )

  fetched :
      (p p₁ : P) (h : FileHandle) (ph : PageHandle) (pn f : ℕ) (page : Page)
      → content os device p h.file_desc pn ≡ some page
      → page.page_num ≡ pn
      → lookup h.file_desc pn p.manager.page_table ≡ none
      → Evicted os device p f p₁
      → FetchOutcome p h.file_desc pn page (fetch os pn h ph (ok f, p₁))
  unfolding fetch loaded
  fetched p p₁ h ph pn f page e epn new ev =
      let (p₃, done, pinned, same) = load_page-Pinned p p₁ h pn f page e epn new ev in
      rw done (f, refl, pinned)

  block_fetched :
      (p : P) (r : Result ℕ × P) (h : FileHandle) (ph : PageHandle) (pn : ℕ) (page : Page)
      → content os device p h.file_desc pn ≡ some page
      → page.page_num ≡ pn
      → lookup h.file_desc pn p.manager.page_table ≡ none
      → BlockOutcome os device p r
      → FetchOutcome p h.file_desc pn page (fetch os pn h ph r)
  unfolding fetch
  block_fetched p (ok f, p₁) h ph pn page e epn new b = fetched p p₁ h ph pn f page e epn new b
  block_fetched p (err x, p₁) h ph pn page e epn new b = (b.0, new, b.1, b.2)
  block_fetched p (undefined, p₁) h ph pn page e epn new b = absurd b

  -- `get_this_page` after its checks, for a page that can be read and carries its own number.
  pub pin_or_fetch-outcome :
      (p : P) (h : FileHandle) (ph : PageHandle) (pn : ℕ) (page : Page)
      → IsCoherent os device p
      → content os device p h.file_desc pn ≡ some page
      → page.page_num ≡ pn
      → FetchOutcome p h.file_desc pn page (pin_or_fetch os pn h ph p)
  unfolding pin_or_fetch get_frame
  pin_or_fetch-outcome p h ph pn page c e epn =
      elim (Option-cases (lookup h.file_desc pn p.manager.page_table)) [
        | inl new ↦
            let run : pin_or_fetch os pn h ph p ≡ fetch os pn h ph (allocate_block os p) =
              rw (pin_or_fetch, new) refl in
            subst (FetchOutcome p h.file_desc pn page) (sym run) (
              block_fetched p (allocate_block os p) h ph pn page e epn new
                (allocate_block-Evicted os device p c))
        | inr (f, held) ↦
            let shows : some (frame_of p f).page ≡ some page =
              sym (content_at os device p h.file_desc pn (some f) held) ∙ e in
            let run : pin_or_fetch os pn h ph p
                ≡ (ok tt, record { is_open = true; frame = some f }, repin f p) =
              rw (pin_or_fetch, held) refl in
            subst (FetchOutcome p h.file_desc pn page) (sym run) (
              f,
              refl,
              repin-Pinned os device p h.file_desc pn f page c held (ground (arith, shows)),
            )
      ]

  -- `get_this_page` on an open file and a page of it that is allocated, readable and carries its
  -- own number: the handle is opened on a frame that shows the page and is safe from eviction, no
  -- page that can be read changes, and the pool stays coherent. The one error is NOMEM, when the
  -- page is not in the pool, no frame is free and none can be evicted.
  pub get_this_page-outcome :
      (p : P) (file_id pn : ℕ) (h : FileHandle) (ph : PageHandle) (page : Page)
      → IsCoherent os device p
      → file_id < max_open_file
      → p.open_file file_id ≡ some h
      → pn < page_count p h
      → page_bit p h pn ≡ true
      → content os device p h.file_desc pn ≡ some page
      → page.page_num ≡ pn
      → FetchOutcome p h.file_desc pn page (get_this_page os file_id pn ph p)
  unfolding get_this_page checked check_file_id check_page_num
  get_this_page-outcome p file_id pn h ph page c id opened below bit e epn =
      let a : leb max_open_file file_id ≡ false = ground arith in
      let b : leb (page_count p h) pn ≡ false = ground arith in
      rw (a, opened, b, bit) (pin_or_fetch-outcome p h ph pn page c e epn)
