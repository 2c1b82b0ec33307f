-- ===== src/DiskPool/Pinned.antt =====
-- A page that stands in a frame of the pool of disk_buffer_pool.cpp, safe from eviction, and the steps of
-- `get_this_page` that bring it there.
use atangyldb.Base.{
  ℕ, ◌*◌, ◌≡◌, refl, sym, ap, ◌∙◌, inl, inr, false, Option, none, some, ◌==◌, arith, Bool-cases,
  Option-cases, ==-self,
}
use atangyldb.Base.Lists.{contains}
use atangyldb.BufferManager.{Page, Frame, set_frame, lookup, add_page_table}
use atangyldb.BufferManager.Managed.{Holds, IsLoose, differ}
use atangyldb.BufferManager.Moves.{entry_cases, set_frame-IsManaged, add_page_table-IsManaged}
use atangyldb.BufferManager.Pins.{pin-IsManaged, kept_field}
use atangyldb.BufferManager.Table.{same_key}
use atangyldb.LruReplacer.Members.{contains-pin}
use atangyldb.LruReplacer.Refine.{view}
use atangyldb.Rc.{ok}
use atangyldb.DiskPool.{Os, FileHandle, Pool, page_size, frame_of, with_frame, inc_pin}
use atangyldb.DiskPool.Calls.{load_page}
use atangyldb.DiskPool.Pages.{repin, enter_page}
use atangyldb.DiskPool.Coherent.{IsReliable, IsCoherent, content, content_in, Keeps}

module _ (os : Os) (device : IsReliable os) where
  abbrev P : Type 0
  P = Pool os.State

  -- The page `pn` of `fd` was `page`, and stands in frame `f` of `p'`, safe from eviction.
  pub record Pinned (p : P) (fd pn : ℕ) (page : Page) (f : ℕ) (p' : P) : Type 0 where
    pub coherent : IsCoherent os device p'
    pub keeps : Keeps os device p p'
    pub holds : Holds p'.manager fd pn f
    pub shows : (frame_of p' f).page ≡ page
    pub safe : contains f (view p'.manager.replacer) ≡ false

  pub content_at :
      (p : P) (fd pn : ℕ) (o : Option ℕ)
      → lookup fd pn p.manager.page_table ≡ o
      → content os device p fd pn ≡ content_in os device p o fd pn
  content_at p fd pn o e = ap (λ x. content_in os device p x fd pn) e

  -- A page whose place does not change keeps its content if the place keeps it.
  pub kept_in_place :
      (p p' : P) (o : Option ℕ) (fd pn : ℕ) (page : Page)
      → ((g : ℕ) → o ≡ some g → (frame_of p' g).page ≡ (frame_of p g).page)
      → device.stored p'.sys fd pn ≡ device.stored p.sys fd pn
      → content_in os device p o fd pn ≡ some page
      → content_in os device p' o fd pn ≡ some page
  kept_in_place p p' none fd pn page same file h = file ∙ h
  kept_in_place p p' (some g) fd pn page same file h = ap some (same g refl) ∙ h

  -- A frame that the table has gets one more pin, and leaves the replacer.
  pub repin-Pinned :
      (p : P) (fd pn f : ℕ) (page : Page)
      → IsCoherent os device p
      → Holds p.manager fd pn f
      → (frame_of p f).page ≡ page
      → Pinned p fd pn page f (repin f p)
  unfolding repin with_frame inc_pin
  repin-Pinned p fd pn f page c h e = record {
    coherent = record {
      managed = pin-IsManaged p.manager f (inc_pin (frame_of p f)) c.managed refl refl;
      clean = λ fd' pn' g k d.
          let same_dirty =
            kept_field (λ x. x.dirty) p.manager.frames f g (inc_pin (frame_of p f)) refl in
          let same_page =
            kept_field (λ x. x.page) p.manager.frames f g (inc_pin (frame_of p f)) refl in
          c.clean fd' pn' g k (sym same_dirty ∙ d) ∙ ap some (sym same_page);
      free_clean = λ g k.
          kept_field (λ x. x.dirty) p.manager.frames f g (inc_pin (frame_of p f)) refl
          ∙ c.free_clean g k;
    };
    keeps = λ fd' pn' pg k.
        kept_in_place p (repin f p) (lookup fd' pn' p.manager.page_table) fd' pn' pg
          (λ g _. kept_field (λ x. x.page) p.manager.frames f g (inc_pin (frame_of p f)) refl) refl
          k;
    holds = h;
    shows = kept_field (λ x. x.page) p.manager.frames f f (inc_pin (frame_of p f)) refl ∙ e;
    safe = contains-pin p.manager.replacer f f c.managed.lru ∙ rw ==-self refl;
  }

  -- A stored page is loaded into its frame, and no stored page changes.
  pub load_page-loads :
      (pn : ℕ) (h : FileHandle) (f : ℕ) (p : P) (page : Page)
      → device.stored p.sys h.file_desc pn ≡ some page
      → (s : os.State) × (load_page os pn h f p
          ≡ (ok tt, with_frame (record p { sys = s }) f (record (frame_of p f) { page = page })))
        × ((fd' pn' : ℕ) → device.stored s fd' pn' ≡ device.stored p.sys fd' pn')
  unfolding load_page
  load_page-loads pn h f p page e =
      elim (Option-cases (os.sys_lseek p.sys h.file_desc (pn * page_size))) [
        | inl n ↦ absurd (device.seeks p.sys h.file_desc (pn * page_size) n)
        | inr (s, k) ↦
            let at = device.lseek_moves p.sys s h.file_desc (pn * page_size) k in
            let same =
              λ (fd' pn' : ℕ). device.lseek_keeps p.sys s h.file_desc (pn * page_size) fd' pn' k in
            let got = device.read_stored s h.file_desc pn at ∙ same h.file_desc pn ∙ e in
            (
              (os.sys_read s h.file_desc).1,
              rw (k, load_page, got) refl,
              λ fd' pn'. device.read_keeps s h.file_desc fd' pn' ∙ same fd' pn',
            )
      ]

  -- A loose frame may be written, with a clean frame, and no page that can be read changes.
  pub IsLoose-write :
      (p : P) (f : ℕ) (s : os.State) (frame : Frame)
      → IsCoherent os device p
      → IsLoose p.manager f
      → frame.dirty ≡ false
      → ((fd pn : ℕ) → device.stored s fd pn ≡ device.stored p.sys fd pn)
      → IsCoherent os device (with_frame (record p { sys = s }) f frame)
        × IsLoose (with_frame (record p { sys = s }) f frame).manager f
        × Keeps os device p (with_frame (record p { sys = s }) f frame)
  unfolding with_frame set_frame
  IsLoose-write p f s frame c l d same =
      let set = set_frame-IsManaged p.manager f frame c.managed l in
      let apart =
        λ (fd pn g : ℕ) (h : Holds p.manager fd pn g). differ f g _ (l.not_held fd pn) h in
      (
        record {
          managed = set.0;
          clean = λ fd pn g h e.
              let n = apart fd pn g h in
              let e' : (frame_of p g).dirty ≡ false = rw n at e in
              same fd pn ∙ rw n (c.clean fd pn g h e');
          free_clean = λ g h. elim (Bool-cases (f == g)) [
            | inl is_f ↦ rw is_f d
            | inr other ↦ rw other (c.free_clean g h)
          ];
        },
        set.1,
        λ fd pn page h.
            kept_in_place p (with_frame (record p { sys = s }) f frame)
              (lookup fd pn p.manager.page_table) fd pn page (λ g k. rw (apart fd pn g k) refl)
              (same fd pn) h,
      )

  -- A loose frame with the stored content of a page that the table lacks may be entered for it.
  pub enter_page-Pinned :
      (p : P) (fd pn f : ℕ) (page : Page)
      → IsCoherent os device p
      → IsLoose p.manager f
      → (frame_of p f).file_desc ≡ fd
      → (frame_of p f).page ≡ page
      → page.page_num ≡ pn
      → lookup fd pn p.manager.page_table ≡ none
      → device.stored p.sys fd pn ≡ some page
      → Pinned p fd pn page f (enter_page fd pn f p)
  unfolding enter_page add_page_table
  enter_page-Pinned p fd pn f page c l efd epage epn new file =
      let set =
        add_page_table-IsManaged p.manager fd pn f c.managed l efd
          (ap (λ (x : Page). x.page_num) epage ∙ epn) new in
      record {
        coherent = record {
          managed = set.0;
          clean = λ fd' pn' g h d.
              elim (entry_cases fd pn f fd' pn' g _ (sym (set.1 fd' pn') ∙ h)) [
                | inl (a, b, e) ↦ rw (← a, ← b, ← e) (file ∙ ap some (sym epage))
                | inr old ↦ c.clean fd' pn' g old d
              ];
          free_clean = c.free_clean;
        };
        keeps = λ fd' pn' pg h. elim (Bool-cases (same_key fd pn fd' pn')) [
          | inl same ↦
              let a : fd ≡ fd' = ground arith in
              let b : pn ≡ pn' = ground arith in
              let h' : content os device p fd pn ≡ some pg = rw (a, b) h in
              let e' : some page ≡ some pg = sym file ∙ sym (content_at p fd pn none new) ∙ h' in
              content_at (enter_page fd pn f p) fd' pn' (some f) (set.1 fd' pn' ∙ rw same refl)
              ∙ ap some epage
              ∙ e'
          | inr other ↦
              content_at (enter_page fd pn f p) fd' pn' _ (set.1 fd' pn' ∙ rw other refl)
              ∙ kept_in_place p (enter_page fd pn f p) (lookup fd' pn' p.manager.page_table) fd' pn'
                  pg (λ g _. refl) refl h
        ];
        holds = set.1 fd pn ∙ rw (==-self fd, ==-self pn) refl;
        shows = epage;
        safe = l.not_listed;
      }

  pub at_frame : (frames : ℕ → Frame) (f : ℕ) (frame : Frame) → set_frame frames f frame f ≡ frame
  unfolding set_frame
  at_frame frames f frame = rw ==-self refl

  pub Pinned-after :
      (p p' p'' : P) (fd pn f : ℕ) (page : Page)
      → Keeps os device p p'
      → Pinned p' fd pn page f p''
      → Pinned p fd pn page f p''
  Pinned-after p p' p'' fd pn f page k l = record {
    coherent = l.coherent;
    keeps = λ fd' pn' pg h. l.keeps fd' pn' pg (k fd' pn' pg h);
    holds = l.holds;
    shows = l.shows;
    safe = l.safe;
  }
