-- ===== src/BplusTree/Written.antt =====
-- A page that the index has got is written, marked and given back.
use atangyldb.Base.{ℕ, ◌≡◌, ap, ◌∙◌, some}
use atangyldb.BplusTree.{IndexPool, IndexPage, Index}
use atangyldb.BplusTree.Pages.{IsIndexPool, Pins, lower, replace}

module _ (pool : IndexPool) (laws : IsIndexPool pool) where
  abbrev I : Type 0
  I = Index pool.State

  -- What the pool is after the leaf was written.
  abbrev pub stored : I → ℕ → IndexPage → pool.State → pool.State
  stored t leaf page s =
      pool.unpin_page t.file_id leaf
        (pool.mark_dirty t.file_id leaf (pool.write_page t.file_id leaf page s))

  pub stored_content :
      (t : I) (leaf : ℕ) (old page : IndexPage) (s : pool.State)
      → laws.content s t.file_id leaf ≡ some old
      → laws.content (stored t leaf page s) ≡ replace (laws.content s) t.file_id leaf (some page)
  stored_content t leaf old page s here =
      (laws.unpins (pool.mark_dirty t.file_id leaf (pool.write_page t.file_id leaf page s))
        t.file_id leaf).0
      ∙ (laws.marks (pool.write_page t.file_id leaf page s) t.file_id leaf).0
      ∙ (laws.writes s t.file_id leaf old page here).0

  pub stored_pins :
      (t : I) (leaf : ℕ) (old page : IndexPage) (s : pool.State)
      → laws.content s t.file_id leaf ≡ some old
      → laws.pins (stored t leaf page s) ≡ lower (laws.pins s) t.file_id leaf
  stored_pins t leaf old page s here =
      let written = pool.write_page t.file_id leaf page s in
      let marked = pool.mark_dirty t.file_id leaf written in
      (laws.unpins marked t.file_id leaf).1
      ∙ ap (λ (p : Pins). lower p t.file_id leaf)
          ((laws.marks written t.file_id leaf).1 ∙ (laws.writes s t.file_id leaf old page here).1)
