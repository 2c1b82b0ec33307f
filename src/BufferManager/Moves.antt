-- ===== src/BufferManager/Moves.antt =====
-- How writing a frame, entering it in the page table and freeing it keep the invariant of
-- BPManager in disk_buffer_pool.cpp.
use atangyldb.Base.{
  ℕ, zero, suc, ◌+◌, ◌<◌, ◌≡◌, refl, sym, ◌∙◌, ◌⊎◌, inl, inr, true, false, Option, none, some, List,
  if◌then◌else◌, ◌==◌, arith, Bool-cases,
}
use atangyldb.Base.Lists.{contains, IsNodup, contains-snoc, IsNodup-snoc}
use atangyldb.LruReplacer.{new_replacer, pin}
use atangyldb.LruReplacer.Nodes.{frames}
use atangyldb.LruReplacer.Refine.{new_replacer-IsValid, view, pin-Refines}
use atangyldb.LruReplacer.Members.{contains-pin}
use atangyldb.BufferManager.{
  Frame, Entry, BpManager, set_frame, lookup, erase_entry, frame_ids, new_manager, delete_frame,
  add_page_table,
}
use atangyldb.BufferManager.Table.{
  same_key, lookup-put_entry, put_entry-IsKeyed, lookup-erase_entry, erase_entry-IsKeyed,
}
use atangyldb.BufferManager.Managed.{Holds, IsManaged, IsLoose, differ, apart_in, still}

pub entry_cases :
    (fd pn f fd' pn' g : ℕ) (o : Option ℕ)
    → (if same_key fd pn fd' pn' then some f else o) ≡ some g
    → ((fd ≡ fd') × (pn ≡ pn') × (f ≡ g)) ⊎ (o ≡ some g)
entry_cases fd pn f fd' pn' g o e = elim (Bool-cases (same_key fd pn fd' pn')) [
  | inl same ↦
      let e' : some f ≡ some g = rw same at e in inl (ground arith, ground arith, ground arith)
  | inr other ↦ inr (rw other at e)
]

erased_cases :
    (fd pn fd' pn' g : ℕ) (o : Option ℕ)
    → (if same_key fd pn fd' pn' then none else o) ≡ some g
    → (same_key fd pn fd' pn' ≡ false) × (o ≡ some g)
erased_cases fd pn fd' pn' g o e = elim (Bool-cases (same_key fd pn fd' pn')) [
  | inl same ↦ let e' : none ≡ some g = rw same at e in absurd (cc)
  | inr other ↦ (other, rw other at e)
]

other_key :
    (fd pn fd' pn' g : ℕ) (t : List Entry)
    → lookup fd pn t ≡ none
    → lookup fd' pn' t ≡ some g
    → same_key fd pn fd' pn' ≡ false
other_key fd pn fd' pn' g t n e = elim (Bool-cases (same_key fd pn fd' pn')) [
  | inr other ↦ other
  | inl same ↦
      let a : fd ≡ fd' = ground arith in
      let c : pn ≡ pn' = ground arith in
      let e' : lookup fd pn t ≡ some g = rw (a, c) e in absurd (cc)
]

-- The caller of `alloc` may write the frame that it got.
pub set_frame-IsManaged :
    (b : BpManager) (f : ℕ) (frame : Frame)
    → IsManaged b
    → IsLoose b f
    → IsManaged (record b { frames = set_frame b.frames f frame })
      × IsLoose (record b { frames = set_frame b.frames f frame }) f
unfolding set_frame
set_frame-IsManaged b f frame m l = (
  record {
    lru = m.lru;
    keyed = m.keyed;
    owner_fd = λ fd pn g h. let o = m.owner_fd fd pn g h in let n = other fd pn g h in ground arith;
    owner_pn = λ fd pn g h. let o = m.owner_pn fd pn g h in let n = other fd pn g h in ground arith;
    not_free = m.not_free;
    unpinned = λ g h. let o = m.unpinned g h in let n = unlisted g h in ground arith;
    evictable = λ g h. rw (unlisted g h) (m.evictable g h);
    spare = m.spare;
  },
  record { not_free = l.not_free; not_listed = l.not_listed; not_held = l.not_held },
)
  where
    other : (fd pn g : ℕ) → Holds b fd pn g → (f == g) ≡ false
    other fd pn g h = let n = l.not_held fd pn in differ f g (lookup fd pn b.page_table) n h

    unlisted : (g : ℕ) → contains g (view b.replacer) ≡ true → (f == g) ≡ false
    unlisted g h = apart_in f g (view b.replacer) l.not_listed h

-- A loose frame that says whose page it holds may be entered for that page.
pub add_page_table-IsManaged :
    (b : BpManager) (fd pn f : ℕ)
    → IsManaged b
    → IsLoose b f
    → (b.frames f).file_desc ≡ fd
    → (b.frames f).page.page_num ≡ pn
    → lookup fd pn b.page_table ≡ none
    → IsManaged (add_page_table b fd pn f)
      × ((fd' pn' : ℕ)
          → lookup fd' pn' (add_page_table b fd pn f).page_table
            ≡ (if same_key fd pn fd' pn' then some f else lookup fd' pn' b.page_table))
unfolding add_page_table
add_page_table-IsManaged b fd pn f m l efd epn new =
    let law = λ (fd' pn' : ℕ). lookup-put_entry fd pn f fd' pn' b.page_table in
    (
      record {
        lru = m.lru;
        keyed = put_entry-IsKeyed fd pn f b.page_table m.keyed;
        owner_fd = λ fd' pn' g h. elim (entry_cases fd pn f fd' pn' g _ (sym (law fd' pn') ∙ h)) [
          | inl (a, c, d) ↦ rw (← d, ← a) efd
          | inr old ↦ m.owner_fd fd' pn' g old
        ];
        owner_pn = λ fd' pn' g h. elim (entry_cases fd pn f fd' pn' g _ (sym (law fd' pn') ∙ h)) [
          | inl (a, c, d) ↦ rw (← d, ← c) epn
          | inr old ↦ m.owner_pn fd' pn' g old
        ];
        not_free = λ fd' pn' g h. elim (entry_cases fd pn f fd' pn' g _ (sym (law fd' pn') ∙ h)) [
          | inl (a, c, d) ↦ rw (← d) l.not_free
          | inr old ↦ m.not_free fd' pn' g old
        ];
        unpinned = m.unpinned;
        evictable = λ g h.
            law (b.frames g).file_desc (b.frames g).page.page_num
            ∙ rw (other_key fd pn _ _ g b.page_table new (m.evictable g h)) (m.evictable g h);
        spare = m.spare;
      },
      law,
    )

-- A page that is thrown out leaves its frame free.
pub delete_frame-IsManaged :
    (b : BpManager) (fd pn f : ℕ)
    → IsManaged b
    → Holds b fd pn f
    → IsManaged (delete_frame b fd pn f)
      × ((fd' pn' : ℕ)
          → lookup fd' pn' (delete_frame b fd pn f).page_table
            ≡ (if same_key fd pn fd' pn' then none else lookup fd' pn' b.page_table))
unfolding delete_frame
delete_frame-IsManaged b fd pn f m h =
    let law = λ (fd' pn' : ℕ). lookup-erase_entry fd pn fd' pn' b.page_table m.keyed in
    let old : (fd' pn' g : ℕ)
        → lookup fd' pn' (erase_entry fd pn b.page_table) ≡ some g
        → Holds b fd' pn' g =
      λ fd' pn' g k. (erased_cases fd pn fd' pn' g _ (sym (law fd' pn') ∙ k)).1 in
    (
      record {
        lru = (pin-Refines b.replacer f m.lru).0;
        keyed = erase_entry-IsKeyed fd pn b.page_table m.keyed;
        owner_fd = λ fd' pn' g k. m.owner_fd fd' pn' g (old fd' pn' g k);
        owner_pn = λ fd' pn' g k. m.owner_pn fd' pn' g (old fd' pn' g k);
        not_free = λ fd' pn' g k.
            contains-snoc g f b.free_list
            ∙ rw
                (other_frame fd' pn' g (old fd' pn' g k)
                  (erased_cases fd pn fd' pn' g _ (sym (law fd' pn') ∙ k)).0)
                (m.not_free fd' pn' g (old fd' pn' g k));
        unpinned = λ g k. m.unpinned g (still b.replacer f g m.lru k);
        evictable = λ g k.
            let own = m.evictable g (still b.replacer f g m.lru k) in
            law (b.frames g).file_desc (b.frames g).page.page_num
            ∙ rw (not_key g (unlisted g k) own) own;
        spare = IsNodup-snoc f b.free_list m.spare (m.not_free fd pn f h);
      },
      law,
    )
  where
    other_frame :
        (fd' pn' g : ℕ) → Holds b fd' pn' g → same_key fd pn fd' pn' ≡ false → (f == g) ≡ false
    other_frame fd' pn' g k n = elim (Bool-cases (f == g)) [
      | inr other ↦ other
      | inl same ↦
          let s : f ≡ g = ground arith in
          let k' : Holds b fd' pn' f = rw s k in
          let a = m.owner_fd fd pn f h in
          let c = m.owner_pn fd pn f h in
          let a' = m.owner_fd fd' pn' f k' in
          let c' = m.owner_pn fd' pn' f k' in absurd (ground arith)
    ]

    unlisted : (g : ℕ) → contains g (view (pin b.replacer f)) ≡ true → (f == g) ≡ false
    unlisted g k = let law = contains-pin b.replacer f g m.lru in ground arith

    not_key :
        (g : ℕ)
        → (f == g) ≡ false
        → Holds b (b.frames g).file_desc (b.frames g).page.page_num g
        → same_key fd pn (b.frames g).file_desc (b.frames g).page.page_num ≡ false
    not_key g n own =
        elim (Bool-cases (same_key fd pn (b.frames g).file_desc (b.frames g).page.page_num)) [
          | inr other ↦ other
          | inl same ↦
              let a : fd ≡ (b.frames g).file_desc = ground arith in
              let c : pn ≡ (b.frames g).page.page_num = ground arith in
              let fg : some f ≡ some g = sym h ∙ rw (a, c) own in absurd (ground arith)
        ]

frame_ids_below : (i n k : ℕ) → k < i → contains k (frame_ids i n) ≡ false
unfolding frame_ids contains
frame_ids_below i zero k h = refl
frame_ids_below i (suc n) k h = ground (arith, frame_ids_below (i + 1) n k)

frame_ids-IsNodup : (i n : ℕ) → IsNodup (frame_ids i n)
unfolding frame_ids
frame_ids-IsNodup i zero = tt
frame_ids-IsNodup i (suc n) =
    (frame_ids_below (i + 1) n i (omega arith), frame_ids-IsNodup (i + 1) n)

-- The constructor makes a manager for which the invariant holds, whatever the memory held.
pub new_manager-IsManaged : (size : ℕ) (memory : ℕ → Frame) → IsManaged (new_manager size memory)
unfolding new_manager new_replacer lookup contains frames
new_manager-IsManaged size memory = record {
  lru = new_replacer-IsValid size;
  keyed = tt;
  owner_fd = λ fd pn f h. absurd (cc);
  owner_pn = λ fd pn f h. absurd (cc);
  not_free = λ fd pn f h. absurd (cc);
  unpinned = λ f h. refl;
  evictable = λ f h. absurd (cc);
  spare = frame_ids-IsNodup 0 size;
}
