-- ===== src/DiskPool/Stale.antt =====
-- What `close_file` and `flush_all_pages` of disk_buffer_pool.cpp leave in the page table.
use atangyldb.Base.{
  ℕ, ◌≡◌, ◌≢◌, refl, ◌∙◌, inl, inr, true, false, List, [], ◌∷◌, ◌++◌, ◌==◌, arith, ==-self,
  Bool-cases,
}
use atangyldb.Base.Lists.{contains, contains-snoc}
use atangyldb.BufferManager.{Frame, Entry, set_frame, delete_frame, get_frame}
use atangyldb.BufferManager.Table.{same_key, lookup-erase_entry}
use atangyldb.Rc.{ok}
use atangyldb.DiskPool.{Os, Pool, FileHandle, frame_of, with_frame}
use atangyldb.DiskPool.Calls.{flush_block}
use atangyldb.DiskPool.Files.{entries_of, flush_dirty, free_pages, force_all_pages}
use atangyldb.DiskPool.Coherent.{IsReliable, IsCoherent}
use atangyldb.DiskPool.Flush.{flush_block-stores}

module _ (os : Os) where
  abbrev P : Type 0
  P = Pool os.State

  abbrev pub NoneDirty : (ℕ → Frame) → List Entry → Type 0
  NoneDirty fs [] = Unit {0}
  NoneDirty fs (e ∷ es) = ((fs e.frame).dirty ≡ false) × NoneDirty fs es

  flush_dirty-none :
      (p : P) (es : List Entry) → NoneDirty p.manager.frames es → flush_dirty os es p ≡ (ok [], p)
  unfolding flush_dirty
  flush_dirty-none p [] h = refl
  flush_dirty-none p (e ∷ es) h = rw h.0 (flush_dirty-none p es h.1)

  module _ (device : IsReliable os) where
    cleaned :
        (fs : ℕ → Frame) (f : ℕ) (es : List Entry)
        → NoneDirty fs es
        → NoneDirty (set_frame fs f (record (fs f) { dirty = false })) es
    unfolding set_frame
    cleaned fs f [] h = tt
    cleaned fs f (e ∷ es) h = elim (Bool-cases (f == e.frame)) [
      | inl same ↦ (rw same refl, cleaned fs f es h.1)
      | inr other ↦ (rw other h.0, cleaned fs f es h.1)
    ]

    flush_dirty-one :
        (p : P) (before : List Entry) (e : Entry) (after : List Entry)
        → NoneDirty p.manager.frames before
        → NoneDirty p.manager.frames after
        → (frame_of p e.frame).dirty ≡ true
        → flush_dirty os (before ++ e ∷ after) p
          ≡ (ok ((e.frame, e.frame) ∷ []), (flush_block os e.frame p).1)
    unfolding flush_dirty with_frame
    flush_dirty-one p [] e after b a d =
        let (s, done, back, rest) = flush_block-stores os device e.frame p in
        let p' : P =
          with_frame (record p { sys = s }) e.frame
            (record (frame_of p e.frame) { dirty = false }) in
        let none_left = flush_dirty-none p' after (cleaned p.manager.frames e.frame after a) in
        rw (d, done, none_left) refl
    flush_dirty-one p (x ∷ xs) e after b a d = rw b.0 (flush_dirty-one p xs e after b.1 a d)

    -- Flushing the pages of a file, when one of them in the pool is dirty and its number is not the
    -- number of its frame: the call succeeds and puts the frame on the free list, and the page table
    -- still names it for the page.
    pub force_all_pages-stale :
        (p : P) (h : FileHandle) (before after : List Entry) (e : Entry)
        → IsCoherent os device p
        → entries_of h.file_desc p.manager.page_table ≡ before ++ e ∷ after
        → NoneDirty p.manager.frames before
        → NoneDirty p.manager.frames after
        → (frame_of p e.frame).dirty ≡ true
        → e.pn ≢ e.frame
        → (p' : P) × (force_all_pages os h p ≡ (ok tt, p'))
          × (contains e.frame p'.manager.free_list ≡ true)
          × (get_frame p'.manager h.file_desc e.pn ≡ get_frame p.manager h.file_desc e.pn)
    unfolding force_all_pages free_pages with_frame get_frame delete_frame
    force_all_pages-stale p h before after e c split b a d apart =
        let f : ℕ = e.frame in
        let fd : ℕ = h.file_desc in
        let flushed : flush_dirty os (entries_of fd p.manager.page_table) p
            ≡ (ok ((f, f) ∷ []), (flush_block os f p).1) =
          rw split (flush_dirty-one p before e after b a d) in
        let (s₁, done₁, back₁, rest₁) = flush_block-stores os device f p in
        let p₁ : P =
          with_frame (record p { sys = s₁ }) f (record (frame_of p f) { dirty = false }) in
        let (s₂, done₂, back₂, rest₂) = flush_block-stores os device f p₁ in
        let p₂ : P =
          with_frame (record p₁ { sys = s₂ }) f (record (frame_of p₁ f) { dirty = false }) in
        let other : same_key fd f fd e.pn ≡ false =
          (let n : (f == e.pn) ≡ false = ground arith in rw (==-self fd, n) refl) in
        (
          record p₂ { manager = delete_frame p₂.manager fd f f },
          rw (force_all_pages, flushed, done₁, free_pages, done₂) refl,
          contains-snoc f f p.manager.free_list ∙ rw ==-self refl,
          lookup-erase_entry fd f fd e.pn p.manager.page_table c.managed.keyed ∙ rw other refl,
        )
