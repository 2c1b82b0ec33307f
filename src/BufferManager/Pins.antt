-- ===== src/BufferManager/Pins.antt =====
-- How writing a frame that the page table holds, pinning and unpinning it keep the invariant of BPManager
-- in disk_buffer_pool.cpp.
use atangyldb.Base.{ℕ, ◌≡◌, refl, ◌∙◌, inl, inr, true, false, ◌==◌, arith, Bool-cases, ap}
use atangyldb.Base.Lists.{contains}
use atangyldb.LruReplacer.{pin, unpin}
use atangyldb.LruReplacer.Refine.{view, pin-Refines, unpin-Refines}
use atangyldb.LruReplacer.Members.{contains-pin, contains-unpin}
use atangyldb.BufferManager.{Page, Frame, BpManager, set_frame}
use atangyldb.BufferManager.Managed.{Holds, IsManaged, still}

pub kept_field {ℓ} :
    {A : Type ℓ} (field : Frame → A) (fs : ℕ → Frame) (f g : ℕ) (frame : Frame)
    → field frame ≡ field (fs f)
    → field (set_frame fs f frame g) ≡ field (fs g)
unfolding set_frame
kept_field field fs f g frame e = elim (Bool-cases (f == g)) [
  | inl same ↦ let s : f ≡ g = ground arith in rw same (e ∙ ap (λ k. field (fs k)) s)
  | inr other ↦ rw other refl
]

-- A frame that the table holds may be written and taken out of the replacer, if it stays the
-- frame of its page.
pub pin-IsManaged :
    (b : BpManager) (f : ℕ) (frame : Frame)
    → IsManaged b
    → frame.file_desc ≡ (b.frames f).file_desc
    → frame.page ≡ (b.frames f).page
    → IsManaged (record b { frames = set_frame b.frames f frame; replacer = pin b.replacer f })
unfolding set_frame
pin-IsManaged b f frame m same_fd same_page =
    let listed : (g : ℕ) → contains g (view (pin b.replacer f)) ≡ true → (f == g) ≡ false =
      λ g h. let law = contains-pin b.replacer f g m.lru in ground arith in
    record {
      lru = (pin-Refines b.replacer f m.lru).0;
      keyed = m.keyed;
      owner_fd = λ fd pn g h.
          kept_field (λ x. x.file_desc) b.frames f g frame same_fd ∙ m.owner_fd fd pn g h;
      owner_pn = λ fd pn g h.
          kept_field (λ x. x.page.page_num) b.frames f g frame
            (ap (λ (x : Page). x.page_num) same_page)
          ∙ m.owner_pn fd pn g h;
      not_free = m.not_free;
      unpinned = λ g h. rw (listed g h) (m.unpinned g (still b.replacer f g m.lru h));
      evictable = λ g h. rw (listed g h) (m.evictable g (still b.replacer f g m.lru h));
      spare = m.spare;
    }

-- A frame that stays the frame of its page may be written, without a pin if it is in the replacer.
pub edit-IsManaged :
    (b : BpManager) (f : ℕ) (frame : Frame)
    → IsManaged b
    → frame.file_desc ≡ (b.frames f).file_desc
    → frame.page.page_num ≡ (b.frames f).page.page_num
    → (contains f (view b.replacer) ≡ true → frame.pin_count ≡ 0)
    → IsManaged (record b { frames = set_frame b.frames f frame })
unfolding set_frame
edit-IsManaged b f frame m same_fd same_pn pins =
    let fds = λ (g : ℕ). kept_field (λ x. x.file_desc) b.frames f g frame same_fd in
    let pns = λ (g : ℕ). kept_field (λ x. x.page.page_num) b.frames f g frame same_pn in
    record {
      lru = m.lru;
      keyed = m.keyed;
      owner_fd = λ fd pn g h. fds g ∙ m.owner_fd fd pn g h;
      owner_pn = λ fd pn g h. pns g ∙ m.owner_pn fd pn g h;
      not_free = m.not_free;
      unpinned = λ g h. elim (Bool-cases (f == g)) [
        | inl same ↦ let e : f ≡ g = ground arith in rw same (pins (rw e h))
        | inr other ↦ rw other (m.unpinned g h)
      ];
      evictable = λ g h. rw (fds g, pns g) (m.evictable g h);
      spare = m.spare;
    }

-- A frame that the table holds and that has no pin may be put into the replacer.
pub unpin-IsManaged :
    (b : BpManager) (fd pn f : ℕ)
    → IsManaged b
    → Holds b fd pn f
    → (b.frames f).pin_count ≡ 0
    → IsManaged (record b { replacer = unpin b.replacer f })
unpin-IsManaged b fd pn f m h z = record {
  lru = (unpin-Refines b.replacer f m.lru).0;
  keyed = m.keyed;
  owner_fd = m.owner_fd;
  owner_pn = m.owner_pn;
  not_free = m.not_free;
  unpinned = λ g k. elim (contains-unpin b.replacer f g m.lru k) [
    | inl same ↦ rw (← same) z
    | inr old ↦ m.unpinned g old
  ];
  evictable = λ g k. elim (contains-unpin b.replacer f g m.lru k) [
    | inl same ↦ rw (← same, m.owner_fd fd pn f h, m.owner_pn fd pn f h) h
    | inr old ↦ m.evictable g old
  ];
  spare = m.spare;
}
