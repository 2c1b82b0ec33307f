-- ===== src/BplusTree/Insertion/Grown.antt =====
-- The tree of an index of bplus_tree.cpp after a leaf of it took an entry.
use Prim.Native.Nat.{Ordering}
use Prim.Native.Nat.Ordering.{eq}
use atangyldb.Base.{
  ℕ, ◌≡◌, ◌≢◌, ◌↔◌, ◌⊎◌, refl, ap, ◌∙◌, inl, inr, true, false, Option, none, some, arith,
}
use atangyldb.Trx.{Rid}
use atangyldb.BplusTree.{IndexPool, IndexPage, Floats, Index, Key}
use atangyldb.BplusTree.Compare.{cmp_key}
use atangyldb.BplusTree.Node.{lower_position, is_duplicate, insert_at}
use atangyldb.BplusTree.Order.{IsOrder}
use atangyldb.BplusTree.Pages.{IsIndexPool, Store, replace, pages}
use atangyldb.BplusTree.Tree.Replace.{replace-IsTree, Stored-before, Stored-after, Stored-new}
use atangyldb.BplusTree.Leaf.{
  IsPlace, lower_position-IsPlace, insert_at-IsOrdered, HasEntry-insert_at, insert_at-HasEntry,
}
use atangyldb.BplusTree.Lookup.{IsIndex, IsStored, AtRoot}

module _ (pool : IndexPool) (laws : IsIndexPool pool) (fl : Floats) where
  abbrev I : Type 0
  I = Index pool.State

  abbrev cmp : I → Key → Key → Ordering
  cmp t = cmp_key fl t.file_header

  -- The leaf's page with the entry.
  abbrev pub fuller : I → Key → Rid → IndexPage → IndexPage
  fuller t key rid page = record page {
    node = insert_at (lower_position (cmp t) key page.node) key rid page.node;
  }

  -- The tree with the leaf replaced.
  module _ (t : I) (level : ℕ) (key : Key) (rid : Rid) (leaf : ℕ) (s : pool.State)
      (order : IsOrder (cmp t)) (tree : IsIndex pool laws fl t level)
      (r : AtRoot pool laws fl t level key leaf)
      (new : is_duplicate (cmp t) key r.page.node ≡ false)
      (written : laws.content s
        ≡ replace (laws.content t.pool) t.file_id leaf (some (fuller t key rid r.page))) where
    abbrev root : ℕ
    root = t.file_header.root_page

    abbrev before : ℕ → Option IndexPage
    before = pages pool laws t

    abbrev after : ℕ → Option IndexPage
    after = laws.content s t.file_id

    now : after leaf ≡ some (fuller t key rid r.page)
    now = ap (λ (c : Store). c t.file_id leaf) written ∙ ground arith

    elsewhere : (p : ℕ) → p ≢ leaf → after p ≡ before p
    elsewhere p n = ap (λ (c : Store). c t.file_id p) written ∙ ground arith

    abbrev pos : ℕ
    pos = lower_position (cmp t) key r.page.node

    place : IsPlace (cmp t) r.page.node key pos
    place = lower_position-IsPlace (cmp t) order r.page.node key r.leaf_lo r.leaf_hi r.ordered new

    grown-is_leaf : (insert_at pos key rid r.page.node).is_leaf ≡ true
    unfolding insert_at
    grown-is_leaf = r.is_leaf

    grown-parent : (insert_at pos key rid r.page.node).parent ≡ r.leaf_parent
    unfolding insert_at
    grown-parent = r.has_parent

    pub grown-IsIndex : IsIndex pool laws fl (record t { pool = s }) level
    grown-IsIndex =
        replace-IsTree (cmp t) before after leaf r.page (fuller t key rid r.page) r.here now
          elsewhere r.is_leaf level root none none none r.leaf_parent r.leaf_lo r.leaf_hi tree r.way
          grown-is_leaf grown-parent
          (insert_at-IsOrdered (cmp t) r.page.node key rid pos place r.leaf_lo r.leaf_hi order
            r.ordered r.at_least r.below)

    pub grown-IsStored :
        (k : Key) (o : Rid)
        → IsStored pool laws fl (record t { pool = s }) level k o
          ↔ (IsStored pool laws fl t level k o ⊎ ((cmp t k key ≡ eq) × (rid ≡ o)))
    grown-IsStored k o = (
      λ h.
          elim (Stored-before (cmp t) before after leaf r.page (fuller t key rid r.page) r.here now
            elsewhere r.is_leaf level root none none none k o tree h) [
              | inl old ↦ inl old
              | inr entry ↦
                  elim (HasEntry-insert_at (cmp t) r.page.node key rid pos place k o entry) [
                    | inl kept ↦ inl (
                        Stored-new (cmp t) before before leaf r.page r.page r.here r.here
                          (λ p n. refl) r.is_leaf level root none none none r.leaf_parent r.leaf_lo
                          r.leaf_hi k o tree r.way kept)
                    | inr added ↦ inr added
                  ]
            ],
      λ h. elim h [
        | inl old ↦
            Stored-after (cmp t) before after leaf r.page (fuller t key rid r.page) r.here now
              elsewhere r.is_leaf level root none none none k o tree
              (λ e. insert_at-HasEntry (cmp t) r.page.node key rid pos place k o (inl e)) old
        | inr added ↦
            Stored-new (cmp t) before after leaf r.page (fuller t key rid r.page) r.here now
              elsewhere r.is_leaf level root none none none r.leaf_parent r.leaf_lo r.leaf_hi k o
              tree r.way (insert_at-HasEntry (cmp t) r.page.node key rid pos place k o (inr added))
      ],
    )
