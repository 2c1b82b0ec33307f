-- ===== src/DiskPool/Evict.antt =====
-- `allocate_block` of disk_buffer_pool.cpp loses nothing: the page that stood in the frame is
-- written back if it is dirty.
use atangyldb.Base.{
  ℕ, ◌≡◌, refl, sym, ap, ◌∙◌, inl, inr, true, false, Option, none, some, [], if◌then◌else◌, ◌==◌,
  arith, Bool-cases, ==-self,
}
use atangyldb.BufferManager.{Page, Frame, BpManager, set_frame, lookup, alloc}
use atangyldb.BufferManager.Managed.{
  Holds, IsManaged, IsLoose, Taken, held_in, AllocOutcome, alloc-Taken, kept_some, differ,
}
use atangyldb.BufferManager.Moves.{set_frame-IsManaged}
use atangyldb.BufferManager.Table.{same_key}
use atangyldb.LruReplacer.Refine.{view}
use atangyldb.Rc.{Result, ok, err, undefined, nomem}
use atangyldb.DiskPool.{Os, Pool, frame_of, with_frame}
use atangyldb.DiskPool.Calls.{clean_block, block_from, allocate_block}
use atangyldb.DiskPool.Flush.{flush_block-stores}
use atangyldb.DiskPool.Coherent.{IsReliable, IsCoherent, content, content_in, Keeps}

module _ (os : Os) (device : IsReliable os) where
  abbrev P : Type 0
  P = Pool os.State

  -- The files that are open did not change.
  pub record SameFiles (p p' : P) : Type 0 where
    pub ids : p'.free_file_ids ≡ p.free_file_ids
    pub handles : p'.open_file ≡ p.open_file
    pub names : p'.file_name_id ≡ p.file_name_id

  -- The pool `p'` has the frame `f` to give away, and every page reads as before.
  pub record Evicted (p : P) (f : ℕ) (p' : P) : Type 0 where
    pub coherent : IsCoherent os device p'
    pub loose : IsLoose p'.manager f
    pub keeps : Keeps os device p p'
    pub absent :
        (fd pn : ℕ)
        → lookup fd pn p.manager.page_table ≡ none
        → lookup fd pn p'.manager.page_table ≡ none
    pub is_clean : (frame_of p' f).dirty ≡ false
    pub same_files : SameFiles p p'

  -- A page keeps its content when the frame `f` leaves the table, if its file has it by then.
  kept_content :
      (p p' : P) (f fd pn : ℕ) (page : Page) (o : Option ℕ)
      → lookup fd pn p.manager.page_table ≡ o
      → lookup fd pn p'.manager.page_table ≡ (if held_in f o then none else o)
      → (o ≡ none → device.stored p.sys fd pn ≡ some page → device.stored p'.sys fd pn ≡ some page)
      → (o ≡ some f → device.stored p'.sys fd pn ≡ some (frame_of p f).page)
      → ((g : ℕ) → (g == f) ≡ false → (frame_of p' g).page ≡ (frame_of p g).page)
      → content os device p fd pn ≡ some page
      → content os device p' fd pn ≡ some page
  kept_content p p' f fd pn page none e e' file out same h =
      ap (λ o. content_in os device p' o fd pn) e'
      ∙ file refl (sym (ap (λ o. content_in os device p o fd pn) e) ∙ h)
  kept_content p p' f fd pn page (some g) e e' file out same h =
      let before : some (frame_of p g).page ≡ some page =
        sym (ap (λ o. content_in os device p o fd pn) e) ∙ h in
      elim (Bool-cases (g == f)) [
        | inl gone ↦
            let g' : g ≡ f = ground arith in
            let e'' : lookup fd pn p'.manager.page_table ≡ none = rw gone at e' in
            ap (λ o. content_in os device p' o fd pn) e'' ∙ out (ap some g') ∙ rw (← g') before
        | inr stays ↦
            let e'' : lookup fd pn p'.manager.page_table ≡ some g = rw stays at e' in
            ap (λ o. content_in os device p' o fd pn) e'' ∙ ap some (same g stays) ∙ before
      ]

  -- The frame that `alloc` took was clean: nothing is written.
  unwritten :
      (p : P) (f : ℕ) (m : BpManager)
      → IsCoherent os device p
      → Taken p.manager f m
      → (frame_of p f).dirty ≡ false
      → Evicted p f (record p { manager = m })
  unwritten p f m c t clean_f = record {
    coherent = record {
      managed = t.managed;
      clean = λ fd pn g h. rw t.frames (c.clean fd pn g (kept_some f g _ (sym (t.kept fd pn) ∙ h)));
      free_clean = λ g h. rw t.frames (c.free_clean g (t.fewer g h));
    };
    loose = t.loose;
    keeps = λ fd pn page h.
        kept_content p (record p { manager = m }) f fd pn page _ refl (t.kept fd pn) (λ _ k. k)
          (λ o. c.clean fd pn f o clean_f) (λ g _. ap (λ (fs : ℕ → Frame). (fs g).page) t.frames) h;
    absent = λ fd pn h. t.kept fd pn ∙ rw h refl;
    is_clean = rw t.frames clean_f;
    same_files = record { ids = refl; handles = refl; names = refl };
  }

  -- Two frames of the table hold different pages.
  other_page :
      (p : P) (f fd pn g : ℕ)
      → IsManaged p.manager
      → Holds p.manager (frame_of p f).file_desc (frame_of p f).page.page_num f
      → Holds p.manager fd pn g
      → (f == g) ≡ false
      → same_key (frame_of p f).file_desc (frame_of p f).page.page_num fd pn ≡ false
  other_page p f fd pn g m own h n =
      elim (Bool-cases (same_key (frame_of p f).file_desc (frame_of p f).page.page_num fd pn)) [
        | inr other ↦ other
        | inl same ↦
            let a : (frame_of p f).file_desc ≡ fd = ground arith in
            let b : (frame_of p f).page.page_num ≡ pn = ground arith in
            let fg : some f ≡ some g = sym own ∙ rw (a, b) h in absurd (ground arith)
      ]

  absent_page :
      (p : P) (f fd pn : ℕ)
      → Holds p.manager (frame_of p f).file_desc (frame_of p f).page.page_num f
      → lookup fd pn p.manager.page_table ≡ none
      → same_key (frame_of p f).file_desc (frame_of p f).page.page_num fd pn ≡ false
  absent_page p f fd pn own n =
      elim (Bool-cases (same_key (frame_of p f).file_desc (frame_of p f).page.page_num fd pn)) [
        | inr other ↦ other
        | inl same ↦
            let a : (frame_of p f).file_desc ≡ fd = ground arith in
            let b : (frame_of p f).page.page_num ≡ pn = ground arith in
            let fg : some f ≡ none = sym own ∙ rw (a, b) n in absurd (cc)
      ]

  written :
      (p : P) (f : ℕ) (m : BpManager) (s : os.State)
      → IsCoherent os device p
      → Taken p.manager f m
      → Holds p.manager (frame_of p f).file_desc (frame_of p f).page.page_num f
      → (device.stored s (frame_of p f).file_desc (frame_of p f).page.page_num
          ≡ some (frame_of p f).page)
      → ((fd pn : ℕ) (page : Page)
          → same_key (frame_of p f).file_desc (frame_of p f).page.page_num fd pn ≡ false
          → device.stored p.sys fd pn ≡ some page
          → device.stored s fd pn ≡ some page)
      → Evicted p f (
          with_frame
            (record p { manager = m; sys = s })
            f
            (record (frame_of p f) { dirty = false }))
  unfolding with_frame set_frame
  written p f m s c t own back rest =
      let marked : Frame = record (frame_of p f) { dirty = false } in
      let set = set_frame-IsManaged m f marked t.managed t.loose in
      let old : (fd pn g : ℕ) → Holds m fd pn g → Holds p.manager fd pn g =
        λ fd pn g h. kept_some f g _ (sym (t.kept fd pn) ∙ h) in
      record {
        coherent = record {
          managed = set.0;
          clean = λ fd pn g h d.
              let n : (f == g) ≡ false = differ f g _ (t.loose.not_held fd pn) h in
              let d' : (frame_of p g).dirty ≡ false = rw (n, t.frames) at d in
              rw (n, t.frames)
                (rest fd pn (frame_of p g).page
                  (other_page p f fd pn g c.managed own (old fd pn g h) n)
                  (c.clean fd pn g (old fd pn g h) d'));
          free_clean = λ g h. elim (Bool-cases (f == g)) [
            | inl same ↦ rw same refl
            | inr other ↦ rw (other, t.frames) (c.free_clean g (t.fewer g h))
          ];
        };
        loose = set.1;
        keeps = λ fd pn page h.
            kept_content p (with_frame (record p { manager = m; sys = s }) f marked) f fd pn page _
              refl (t.kept fd pn) (λ o k. rest fd pn page (absent_page p f fd pn own o) k)
              (λ o.
                let a = c.managed.owner_fd fd pn f o in
                let b = c.managed.owner_pn fd pn f o in rw (a, b) at back)
              (λ g n. let n' : (f == g) ≡ false = ground arith in rw (n', t.frames) refl) h;
        absent = λ fd pn h. t.kept fd pn ∙ rw h refl;
        is_clean = rw ==-self refl;
        same_files = record { ids = refl; handles = refl; names = refl };
      }

  -- What `allocate_block` did, by its result.
  abbrev pub BlockOutcome : P → Result ℕ × P → Type 0
  BlockOutcome p (ok f, p') = Evicted p f p'
  BlockOutcome p (err e, p') =
      (e ≡ nomem) × (p.manager.free_list ≡ []) × (view p.manager.replacer ≡ [])
  BlockOutcome p (undefined, p') = ⊥

  -- A dirty frame was not free, so that the page table had it.
  dirty_held :
      (p : P) (f : ℕ) (m : BpManager)
      → IsCoherent os device p
      → Taken p.manager f m
      → (frame_of p f).dirty ≡ true
      → Holds p.manager (frame_of p f).file_desc (frame_of p f).page.page_num f
  dirty_held p f m c t d = elim t.source [
    | inl free ↦ let n = c.free_clean f free in absurd (cc)
    | inr (unpinned, own) ↦ own
  ]

  clean_outcome :
      (p : P) (f : ℕ) (m : BpManager)
      → IsCoherent os device p
      → Taken p.manager f m
      → BlockOutcome p (clean_block os f (record p { manager = m }))
  unfolding clean_block
  clean_outcome p f m c t =
      let same : m.frames f ≡ p.manager.frames f = ap (λ (fs : ℕ → Frame). fs f) t.frames in
      elim (Bool-cases (frame_of p f).dirty) [
        | inr is_clean ↦ rw (same, is_clean) (unwritten p f m c t is_clean)
        | inl is_dirty ↦
            let (s, done, back, rest) = flush_block-stores os device f (record p { manager = m }) in
            rw (same, is_dirty, done, same)
              (written p f m s c t (dirty_held p f m c t is_dirty) (rw same at back)
                (rw same at rest))
      ]

  block_outcome :
      (p : P) (o : Option ℕ × BpManager)
      → IsCoherent os device p
      → AllocOutcome p.manager o
      → BlockOutcome p (block_from os p o)
  unfolding block_from
  block_outcome p (none, m) c t = (refl, t.0, t.1)
  block_outcome p (some f, m) c t = clean_outcome p f m c t

  pub allocate_block-Evicted :
      (p : P) → IsCoherent os device p → BlockOutcome p (allocate_block os p)
  unfolding allocate_block
  allocate_block-Evicted p c = block_outcome p (alloc p.manager) c (alloc-Taken p.manager c.managed)
