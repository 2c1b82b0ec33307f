-- ===== src/BplusTree/Pages.antt =====
-- What the index needs of the buffer pool: the pages of its file as a store, with the number of pins
-- of each. A page that is allocated can be had (the file is readable, and a frame is left).
use mathlib.Core.Path.{fun_ext}
use atangyldb.Base.{
  ℕ, ◌+◌, ◌-◌, ◌≡◌, ◌≢◌, refl, ◌&&◌, Option, none, some, if◌then◌else◌, ◌==◌, arith,
}
use atangyldb.Rc.{ok}
use atangyldb.BplusTree.{IndexPool, IndexPage, Index, get_page, read_node}

-- The pages of all files, and counts for each.
abbrev pub Store : Type 0
Store = ℕ → ℕ → Option IndexPage

abbrev pub Pins : Type 0
Pins = ℕ → ℕ → ℕ

abbrev pub raise : Pins → ℕ → ℕ → Pins
raise pins f p f' p' = if f == f' && p == p' then pins f' p' + 1 else pins f' p'

abbrev pub lower : Pins → ℕ → ℕ → Pins
lower pins f p f' p' = if f == f' && p == p' then pins f' p' - 1 else pins f' p'

abbrev pub replace : Store → ℕ → ℕ → Option IndexPage → Store
replace c f p page f' p' = if f == f' && p == p' then page else c f' p'

pub lower-raise : (pins : Pins) (f p : ℕ) → lower (raise pins f p) f p ≡ pins
lower-raise pins f p = fun_ext λ f'. fun_ext λ p'. ground arith

pub record IsIndexPool (pool : IndexPool) : Type 0 where
  pub content : pool.State → Store
  pub pins : pool.State → Pins
  pub gets :
      (s : pool.State) (f p : ℕ) (page : IndexPage)
      → content s f p ≡ some page
      → (s' : pool.State) × (pool.get_this_page f p s ≡ (ok tt, s'))
        × (content s' ≡ content s)
        × (pins s' ≡ raise (pins s) f p)
  pub shows :
      (s : pool.State) (f p : ℕ) (page : IndexPage)
      → content s f p ≡ some page
      → pool.page_at s f p ≡ page
  pub writes :
      (s : pool.State) (f p : ℕ) (old page : IndexPage)
      → content s f p ≡ some old
      → (content (pool.write_page f p page s) ≡ replace (content s) f p (some page))
        × (pins (pool.write_page f p page s) ≡ pins s)
  pub marks :
      (s : pool.State) (f p : ℕ)
      → (content (pool.mark_dirty f p s) ≡ content s) × (pins (pool.mark_dirty f p s) ≡ pins s)
  pub unpins :
      (s : pool.State) (f p : ℕ)
      → (content (pool.unpin_page f p s) ≡ content s)
        × (pins (pool.unpin_page f p s) ≡ lower (pins s) f p)
  pub allocates :
      (s : pool.State) (f : ℕ)
      → (p : ℕ) × (s' : pool.State) × (page : IndexPage) × (pool.allocate_page f s ≡ (ok p, s'))
        × (p ≢ 0)
        × (content s f p ≡ none)
        × (content s' ≡ replace (content s) f p (some page))
        × (pins s' ≡ raise (pins s) f p)

module _ (pool : IndexPool) (laws : IsIndexPool pool) where
  -- The pages of the index's file.
  abbrev pub pages : Index pool.State → ℕ → Option IndexPage
  pages t = laws.content t.pool t.file_id

  -- Getting a page pins it, and changes nothing else.
  pub get_page-pins :
      (t : Index pool.State) (pn : ℕ) (page : IndexPage)
      → pages t pn ≡ some page
      → (s : pool.State) × (get_page pool pn t ≡ (ok tt, record t { pool = s }))
        × (laws.content s ≡ laws.content t.pool)
        × (laws.pins s ≡ raise (laws.pins t.pool) t.file_id pn)
  unfolding get_page
  get_page-pins t pn page there =
      let (s, got, same, pinned) = laws.gets t.pool t.file_id pn page there in
      (s, rw got refl, same, pinned)

  pub read_node-shows :
      (t : Index pool.State) (pn : ℕ) (page : IndexPage)
      → pages t pn ≡ some page
      → read_node pool pn t ≡ (ok page.node, t)
  unfolding read_node
  read_node-shows t pn page there = rw (laws.shows t.pool t.file_id pn page there) refl
