-- ===== src/DiskPool/Write.antt =====
-- What the users of a pinned page do to it: `mark_dirty` and `unpin_page` of disk_buffer_pool.cpp.
use mathlib.Core.Path.{fun_ext}
use atangyldb.Base.{
  ℕ, ◌≡◌, refl, ap, ◌∙◌, inl, inr, true, false, some, ◌==◌, arith, ==-self, Bool-cases,
}
use atangyldb.Base.Lists.{contains}
use atangyldb.Memory.{Bytes}
use atangyldb.BufferManager.{Page, Frame, lookup, set_frame}
use atangyldb.BufferManager.Managed.{Holds, IsManaged}
use atangyldb.BufferManager.Pins.{edit-IsManaged}
use atangyldb.BufferManager.Table.{same_key}
use atangyldb.Rc.{Result, ok}
use atangyldb.DiskPool.{Os, Pool, frame_of, with_frame}
use atangyldb.DiskPool.Pages.{mark_dirty}
use atangyldb.DiskPool.Coherent.{IsReliable, IsCoherent, content, Keeps}
use atangyldb.DiskPool.Pinned.{content_at, kept_in_place, at_frame}

module _ (os : Os) (device : IsReliable os) where
  abbrev P : Type 0
  P = Pool os.State

  abbrev pub written_page : P → ℕ → Bytes → Page
  written_page p f bytes = record ((frame_of p f).page) { bytes = bytes }

  -- The pool after a write through the pointer to the data of a page.
  abbrev pub write_data : P → ℕ → Bytes → P
  write_data p f bytes = with_frame p f (record (frame_of p f) { page = written_page p f bytes })

  -- The pool after the write and the mark.
  abbrev pub saved : P → ℕ → Bytes → P
  saved p f bytes =
      with_frame p f (record (frame_of p f) { page = written_page p f bytes; dirty = true })

  set_frame_twice :
      (fs : ℕ → Frame) (f : ℕ) (a b : Frame) → set_frame (set_frame fs f a) f b ≡ set_frame fs f b
  unfolding set_frame
  set_frame_twice fs f a b = fun_ext λ g. ground arith

  marked :
      (p : P) (f : ℕ) (bytes : Bytes)
      → mark_dirty (record { is_open = true; frame = some f }) (write_data p f bytes)
        ≡ (ok tt, saved p f bytes)
  unfolding mark_dirty with_frame set_frame
  marked p f bytes =
      let written : Frame = record (frame_of p f) { page = written_page p f bytes } in
      let result : Frame → Result (Unit {0}) × P =
        λ x. (ok tt, with_frame (write_data p f bytes) f (record x { dirty = true })) in
      ap result (at_frame os device p.manager.frames f written)
      ∙ ap (λ fs. (ok tt, record p { manager = record (p.manager) { frames = fs } }))
          (set_frame_twice p.manager.frames f written (record written { dirty = true }))

  not_held_by :
      (p : P) (fd pn f fd' pn' g : ℕ)
      → IsManaged p.manager
      → Holds p.manager fd pn f
      → same_key fd pn fd' pn' ≡ false
      → Holds p.manager fd' pn' g
      → (f == g) ≡ false
  not_held_by p fd pn f fd' pn' g m h n k = elim (Bool-cases (f == g)) [
    | inr other ↦ other
    | inl same ↦
        let e : f ≡ g = ground arith in
        let k' : Holds p.manager fd' pn' f = rw e k in
        let a = m.owner_fd fd pn f h in
        let b = m.owner_pn fd pn f h in
        let a' = m.owner_fd fd' pn' f k' in
        let b' = m.owner_pn fd' pn' f k' in absurd (ground arith)
  ]

  saved-IsCoherent :
      (p : P) (fd pn f : ℕ) (bytes : Bytes)
      → IsCoherent os device p
      → Holds p.manager fd pn f
      → IsCoherent os device (saved p f bytes)
  unfolding with_frame set_frame
  saved-IsCoherent p fd pn f bytes c h = record {
    managed = edit-IsManaged p.manager f _ c.managed refl refl (λ k. c.managed.unpinned f k);
    clean = λ fd' pn' g k d. elim (Bool-cases (f == g)) [
      | inl same ↦ let no : true ≡ false = rw same at d in absurd (cc)
      | inr other ↦
          let d' : (frame_of p g).dirty ≡ false = rw other at d in rw other (c.clean fd' pn' g k d')
    ];
    free_clean = λ g k.
        let free : contains f p.manager.free_list ≡ false = c.managed.not_free fd pn f h in
        elim (Bool-cases (f == g)) [
          | inl same ↦ let e : f ≡ g = ground arith in cc
          | inr other ↦ rw other (c.free_clean g k)
        ];
  }

  -- Bytes that a user writes into a page that it holds, and marks dirty, are the content of the page
  -- from then on; the pool stays coherent and no other page changes.
  pub mark_dirty-saves :
      (p : P) (fd pn f : ℕ) (bytes : Bytes)
      → IsCoherent os device p
      → Holds p.manager fd pn f
      → (p' : P) × (mark_dirty (record { is_open = true; frame = some f }) (write_data p f bytes)
          ≡ (ok tt, p'))
        × IsCoherent os device p'
        × (content os device p' fd pn ≡ some (record { page_num = pn; bytes = bytes }))
        × ((fd' pn' : ℕ) (page : Page)
            → same_key fd pn fd' pn' ≡ false
            → content os device p fd' pn' ≡ some page
            → content os device p' fd' pn' ≡ some page)
  unfolding with_frame set_frame
  mark_dirty-saves p fd pn f bytes c h =
      let p' : P = saved p f bytes in
      let own : (frame_of p f).page.page_num ≡ pn = c.managed.owner_pn fd pn f h in
      (
        p',
        marked p f bytes,
        saved-IsCoherent p fd pn f bytes c h,
        content_at os device p' fd pn (some f) h ∙ rw (==-self f, own) refl,
        λ fd' pn' page n k.
            kept_in_place os device p p' (lookup fd' pn' p.manager.page_table) fd' pn' page
              (λ g held. rw (not_held_by p fd pn f fd' pn' g c.managed h n held) refl) refl k,
      )

  abbrev Released : P → ℕ → ℕ → ℕ → P → Type 0
  Released p fd pn f p' = IsCoherent os device p' × Keeps os device p p' × Holds p'.manager fd pn f
