-- ===== src/BufferManager/Managed.antt =====
-- The invariant of BPManager: each frame is free, or holds one page that the page table finds there,
-- or is handed out (loose); only unpinned pages are in the replacer.
use atangyldb.Base.{
  ℕ, ◌≡◌, ◌≢◌, refl, sym, ap, ◌∙◌, ◌⊎◌, inl, inr, Bool, true, false, Option, none, some, List, [],
  ◌∷◌, if◌then◌else◌, ◌==◌, arith, Bool-cases, ==-self, length,
}
use atangyldb.Base.Lists.{contains, IsNodup}
use atangyldb.LruReplacer.{LruReplacer, victim, pin}
use atangyldb.LruReplacer.Nodes.{last}
use atangyldb.LruReplacer.Refine.{IsValid, view, pin-Refines, victim-Refines}
use atangyldb.LruReplacer.Members.{contains-pin, contains-victim}
use atangyldb.BufferManager.{BpManager, lookup, erase_entry, take_victim, alloc_from, alloc}
use atangyldb.BufferManager.Table.{same_key, IsKeyed, lookup-erase_entry, erase_entry-IsKeyed}

-- Page `pn` of file `fd` stands in frame `f`.
abbrev pub Holds : BpManager → ℕ → ℕ → ℕ → Type 0
Holds b fd pn f = lookup fd pn b.page_table ≡ some f

pub record IsManaged (b : BpManager) : Type 0 where
  pub lru : IsValid b.replacer
  pub keyed : IsKeyed b.page_table
  pub owner_fd : (fd pn f : ℕ) → Holds b fd pn f → (b.frames f).file_desc ≡ fd
  pub owner_pn : (fd pn f : ℕ) → Holds b fd pn f → (b.frames f).page.page_num ≡ pn
  pub not_free : (fd pn f : ℕ) → Holds b fd pn f → contains f b.free_list ≡ false
  pub unpinned : (f : ℕ) → contains f (view b.replacer) ≡ true → (b.frames f).pin_count ≡ 0
  pub evictable :
      (f : ℕ)
      → contains f (view b.replacer) ≡ true
      → Holds b (b.frames f).file_desc (b.frames f).page.page_num f
  pub spare : IsNodup b.free_list

-- A frame that is in nobody's hands but the caller's.
pub record IsLoose (b : BpManager) (f : ℕ) : Type 0 where
  pub not_free : contains f b.free_list ≡ false
  pub not_listed : contains f (view b.replacer) ≡ false
  pub not_held : (fd pn : ℕ) → lookup fd pn b.page_table ≢ some f

abbrev pub held_in : ℕ → Option ℕ → Bool
held_in f none = false
held_in f (some g) = g == f

-- `alloc` handed out the frame `f`.
pub record Taken (b : BpManager) (f : ℕ) (b' : BpManager) : Type 0 where
  pub managed : IsManaged b'
  pub loose : IsLoose b' f
  pub frames : b'.frames ≡ b.frames
  pub kept :
      (fd pn : ℕ)
      → lookup fd pn b'.page_table
        ≡ (if held_in f (lookup fd pn b.page_table) then none else lookup fd pn b.page_table)
  pub fewer : (g : ℕ) → contains g b'.free_list ≡ true → contains g b.free_list ≡ true
  pub source :
      (contains f b.free_list ≡ true)
      ⊎ (((b.frames f).pin_count ≡ 0) × Holds b (b.frames f).file_desc (b.frames f).page.page_num f)

unheld : (f : ℕ) (o : Option ℕ) → o ≢ some f → o ≡ (if held_in f o then none else o)
unheld f none h = refl
unheld f (some g) h = elim (Bool-cases (g == f)) [
  | inl same ↦ absurd (h (ground arith))
  | inr other ↦ rw other refl
]

pub differ : (f g : ℕ) (o : Option ℕ) → o ≢ some f → o ≡ some g → (f == g) ≡ false
differ f g o n e = elim (Bool-cases (f == g)) [
  | inl same ↦ let s : f ≡ g = ground arith in absurd (n (e ∙ ap some (sym s)))
  | inr other ↦ other
]

pub apart_in :
    (f g : ℕ) (xs : List ℕ) → contains f xs ≡ false → contains g xs ≡ true → (f == g) ≡ false
apart_in f g xs n e = elim (Bool-cases (f == g)) [
  | inl same ↦ let s : f ≡ g = ground arith in cc
  | inr other ↦ other
]

-- What is left of an entry once the entries of `f` are gone.
pub kept_some : (f g : ℕ) (o : Option ℕ) → (if held_in f o then none else o) ≡ some g → o ≡ some g
kept_some f g none h = absurd (cc)
kept_some f g (some k) h = ground arith

not_kept : (f : ℕ) (o : Option ℕ) → (if held_in f o then none else o) ≢ some f
not_kept f none h = absurd (cc)
not_kept f (some k) h = ground arith

pub still :
    (r : LruReplacer) (f g : ℕ)
    → IsValid r
    → contains g (view (pin r f)) ≡ true
    → contains g (view r) ≡ true
still r f g v h = let law = contains-pin r f g v in ground arith

more_free :
    (f g : ℕ) (free rest : List ℕ)
    → free ≡ f ∷ rest
    → contains g rest ≡ true
    → contains g free ≡ true
unfolding contains
more_free f g free rest e h = rw e (ground arith)

from_free :
    (b : BpManager) (f : ℕ) (rest : List ℕ)
    → IsManaged b
    → b.free_list ≡ f ∷ rest
    → Taken b f (record b { free_list = rest; replacer = pin b.replacer f })
unfolding contains
from_free b f rest m e =
    let u : IsNodup (f ∷ rest) = rw e at m.spare in
    let free_f : contains f b.free_list ≡ true = rw e (ground arith) in
    let sub : (g : ℕ) → contains g b.free_list ≡ false → contains g rest ≡ false =
      λ g h. let h' : contains g (f ∷ rest) ≡ false = rw e at h in ground arith in
    record {
      managed = record {
        lru = (pin-Refines b.replacer f m.lru).0;
        keyed = m.keyed;
        owner_fd = m.owner_fd;
        owner_pn = m.owner_pn;
        not_free = λ fd pn g h. sub g (m.not_free fd pn g h);
        unpinned = λ g h. m.unpinned g (still b.replacer f g m.lru h);
        evictable = λ g h. m.evictable g (still b.replacer f g m.lru h);
        spare = u.1;
      };
      loose = record {
        not_free = u.0;
        not_listed = contains-pin b.replacer f f m.lru ∙ rw ==-self;
        not_held = λ fd pn h. let c = m.not_free fd pn f h in cc;
      };
      frames = refl;
      kept = λ fd pn. unheld f (lookup fd pn b.page_table) λ h. let c = m.not_free fd pn f h in cc;
      fewer = λ g h. more_free f g b.free_list rest e h;
      source = inl free_f;
    }

module _ (b : BpManager) (f : ℕ) (r : LruReplacer) (m : IsManaged b)
    (e : victim b.replacer ≡ (some f, r)) where
  abbrev taken : BpManager
  taken = record b {
    page_table = erase_entry (b.frames f).file_desc (b.frames f).page.page_num b.page_table;
    replacer = pin r f;
  }

  held_before : contains f (view b.replacer) ≡ true
  held_before = (contains-victim b.replacer f f m.lru (ap (λ x. x.0) e)).0

  lru_after : IsValid r
  lru_after = rw (ap (λ x. x.1) e) at (victim-Refines b.replacer m.lru).0

  still_listed :
      (g : ℕ) → contains g (view taken.replacer) ≡ true → contains g (view b.replacer) ≡ true
  still_listed g h =
      let law = (contains-victim b.replacer f g m.lru (ap (λ x. x.0) e)).1 in
      let law' : contains g (view r) ≡ (if f == g then false else contains g (view b.replacer)) =
        rw (ap (λ x. x.1) e) at law in
      let before = still r f g lru_after h in ground arith

  kept_by_erase :
      (fd pn : ℕ)
      → lookup fd pn taken.page_table
        ≡ (if held_in f (lookup fd pn b.page_table) then none else lookup fd pn b.page_table)
  kept_by_erase fd pn =
      let k =
        lookup-erase_entry (b.frames f).file_desc (b.frames f).page.page_num fd pn b.page_table
          m.keyed in
      let own = m.evictable f held_before in
      elim (Bool-cases (same_key (b.frames f).file_desc (b.frames f).page.page_num fd pn)) [
        | inl same ↦
            let a : (b.frames f).file_desc ≡ fd = ground arith in
            let c : (b.frames f).page.page_num ≡ pn = ground arith in
            let own' : lookup fd pn b.page_table ≡ some f = cc in k ∙ rw (same, own', ==-self) refl
        | inr other ↦
            k
            ∙ rw other (
                unheld f (lookup fd pn b.page_table) λ h.
                  let a = m.owner_fd fd pn f h in
                  let c = m.owner_pn fd pn f h in absurd (ground arith))
      ]

  was_held : (fd pn g : ℕ) → Holds taken fd pn g → Holds b fd pn g
  was_held fd pn g h = kept_some f g (lookup fd pn b.page_table) (sym (kept_by_erase fd pn) ∙ h)

  other_frame : (g : ℕ) → contains g (view taken.replacer) ≡ true → (g == f) ≡ false
  other_frame g h = let law = contains-pin r f g lru_after in ground arith

  from_victim : Taken b f taken
  from_victim = record {
    managed = record {
      lru = (pin-Refines r f lru_after).0;
      keyed = erase_entry-IsKeyed _ _ b.page_table m.keyed;
      owner_fd = λ fd pn g h. m.owner_fd fd pn g (was_held fd pn g h);
      owner_pn = λ fd pn g h. m.owner_pn fd pn g (was_held fd pn g h);
      not_free = λ fd pn g h. m.not_free fd pn g (was_held fd pn g h);
      unpinned = λ g h. m.unpinned g (still_listed g h);
      evictable = λ g h.
          kept_by_erase (b.frames g).file_desc (b.frames g).page.page_num
          ∙ rw (m.evictable g (still_listed g h), other_frame g h) refl;
      spare = m.spare;
    };
    loose = record {
      not_free = m.not_free _ _ f (m.evictable f held_before);
      not_listed = contains-pin r f f lru_after ∙ rw ==-self;
      not_held = λ fd pn h. not_kept f (lookup fd pn b.page_table) (sym (kept_by_erase fd pn) ∙ h);
    };
    frames = refl;
    kept = kept_by_erase;
    fewer = λ g h. h;
    source = inr (m.unpinned f held_before, m.evictable f held_before);
  }

-- What `alloc` did, by its result.
abbrev pub AllocOutcome : BpManager → Option ℕ × BpManager → Type 0
AllocOutcome b (none, b') = (b.free_list ≡ []) × (view b.replacer ≡ [])
AllocOutcome b (some f, b') = Taken b f b'

view_empty : (r : LruReplacer) → IsValid r → (victim r).0 ≡ none → view r ≡ []
view_empty r v e = let law = (victim-Refines r v).1 in go (view r) (sym law ∙ e)
  where
    go : (xs : List ℕ) → (if length xs == 0 then none else some (last xs)) ≡ none → xs ≡ []
    go [] h = refl
    go (x ∷ xs) h = absurd (ground arith)

victim_outcome :
    (b : BpManager) (v : Option ℕ) (r : LruReplacer)
    → IsManaged b
    → b.free_list ≡ []
    → victim b.replacer ≡ (v, r)
    → AllocOutcome b (take_victim b (v, r))
unfolding take_victim
victim_outcome b none r m e d = (e, view_empty b.replacer m.lru (ap (λ x. x.0) d))
victim_outcome b (some f) r m e d = from_victim b f r m d

alloc_outcome :
    (b : BpManager) (free : List ℕ)
    → IsManaged b
    → b.free_list ≡ free
    → AllocOutcome b (alloc_from b free)
unfolding alloc_from
alloc_outcome b [] m e = victim_outcome b (victim b.replacer).0 (victim b.replacer).1 m e refl
alloc_outcome b (f ∷ rest) m e = from_free b f rest m e

-- A frame that `alloc` hands out was free, or held an unpinned page, and is loose afterwards; the
-- invariant holds; no page but the one that it held leaves the table, and no frame is written.
-- `alloc` fails only when no frame is free and the replacer is empty.
pub alloc-Taken : (b : BpManager) → IsManaged b → AllocOutcome b (alloc b)
unfolding alloc
alloc-Taken b m = alloc_outcome b b.free_list m refl
