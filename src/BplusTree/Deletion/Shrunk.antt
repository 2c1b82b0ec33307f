-- ===== src/BplusTree/Deletion/Shrunk.antt =====
-- The tree of an index of bplus_tree.cpp after a leaf of it lost an entry.
use Prim.Native.Nat.{Ordering}
use Prim.Native.Nat.Ordering.{eq}
use atangyldb.Base.{ℕ, ◌<◌, ◌≡◌, ◌≢◌, ◌↔◌, refl, ap, ◌∙◌, inl, inr, true, Option, none, some, arith}
use atangyldb.Trx.{Rid}
use atangyldb.BplusTree.{IndexPool, IndexPage, Floats, Index, Key}
use atangyldb.BplusTree.Compare.{cmp_key}
use atangyldb.BplusTree.Node.{equal_position, delete_at}
use atangyldb.BplusTree.Order.{IsOrder}
use atangyldb.BplusTree.Pages.{IsIndexPool, Store, replace, pages}
use atangyldb.BplusTree.Tree.{HasEntry, AtLeast-eq, Below-eq}
use atangyldb.BplusTree.Tree.Replace.{replace-IsTree, Stored-before, Stored-after, Stored-new}
use atangyldb.BplusTree.Tree.Onward.{WayDown-after}
use atangyldb.BplusTree.Tree.Way.{Stored_on_way}
use atangyldb.BplusTree.Siblings.{delete_at-IsOrdered, delete_at-HasEntry}
use atangyldb.BplusTree.Lookup.{IsIndex, IsStored, AtRoot}

module _ (pool : IndexPool) (laws : IsIndexPool pool) (fl : Floats) where
  abbrev I : Type 0
  I = Index pool.State

  abbrev cmp : I → Key → Key → Ordering
  cmp t = cmp_key fl t.file_header

  -- The leaf's page without the entry at the position of the key.
  abbrev pub lesser : I → Key → IndexPage → IndexPage
  lesser t key page = record page {
    node = delete_at (equal_position (cmp t) key page.node) page.node;
  }

  module _ (t : I) (level : ℕ) (key : Key) (leaf : ℕ) (s : pool.State) (order : IsOrder (cmp t))
      (tree : IsIndex pool laws fl t level) (r : AtRoot pool laws fl t level key leaf)
      (inside : equal_position (cmp t) key r.page.node < r.page.node.key_num)
      (same : cmp t key (r.page.node.keys (equal_position (cmp t) key r.page.node)) ≡ eq)
      (written : laws.content s
        ≡ replace (laws.content t.pool) t.file_id leaf (some (lesser t key r.page))) where
    abbrev root : ℕ
    root = t.file_header.root_page

    abbrev before : ℕ → Option IndexPage
    before = pages pool laws t

    abbrev after : ℕ → Option IndexPage
    after = laws.content s t.file_id

    abbrev new : IndexPage
    new = lesser t key r.page

    abbrev pos : ℕ
    pos = equal_position (cmp t) key r.page.node

    now : after leaf ≡ some new
    now = ap (λ (c : Store). c t.file_id leaf) written ∙ ground arith

    elsewhere : (p : ℕ) → p ≢ leaf → after p ≡ before p
    elsewhere p n = ap (λ (c : Store). c t.file_id p) written ∙ ground arith

    still_leaf : (delete_at pos r.page.node).is_leaf ≡ true
    unfolding delete_at
    still_leaf = r.is_leaf

    still_parent : (delete_at pos r.page.node).parent ≡ r.leaf_parent
    unfolding delete_at
    still_parent = r.has_parent

    pub shrunk-IsIndex : IsIndex pool laws fl (record t { pool = s }) level
    shrunk-IsIndex =
        replace-IsTree (cmp t) before after leaf r.page new r.here now elsewhere r.is_leaf level
          root none none none r.leaf_parent r.leaf_lo r.leaf_hi tree r.way still_leaf still_parent
          (delete_at-IsOrdered (cmp t) r.page.node pos inside r.is_leaf r.leaf_lo r.leaf_hi
            r.ordered)

    -- The leaf has no entry with the key any more, and neither has the tree.
    entries :
        (k : Key) (o : Rid)
        → HasEntry (cmp t) new.node k o
          ↔ (HasEntry (cmp t) r.page.node k o × (cmp t k (r.page.node.keys pos) ≢ eq))
    entries k o =
        delete_at-HasEntry (cmp t) r.page.node pos inside r.is_leaf order r.leaf_lo r.leaf_hi
          r.ordered k o

    gone :
        (k : Key) (o : Rid)
        → IsStored pool laws fl (record t { pool = s }) level k o
        → cmp t k key ≢ eq
    gone k o stored e =
        let way =
          WayDown-after (cmp t) before after leaf r.page new r.here now elsewhere r.is_leaf level
            root none none none r.leaf_parent r.leaf_lo r.leaf_hi tree r.way in
        let entry =
          Stored_on_way (cmp t) order after leaf new now r.leaf_parent r.leaf_lo r.leaf_hi k
            (AtLeast-eq (cmp t) order r.leaf_lo k key e r.at_least)
            (Below-eq (cmp t) order r.leaf_hi k key e r.below) level root none none none o
            shrunk-IsIndex way stored in
        ((entries k o).0 entry).1 (order.eq_trans k key (r.page.node.keys pos) e same)

    pub shrunk-IsStored :
        (k : Key) (o : Rid)
        → IsStored pool laws fl (record t { pool = s }) level k o
          ↔ (IsStored pool laws fl t level k o × (cmp t k key ≢ eq))
    shrunk-IsStored k o = (
      λ h. (
        elim (Stored-before (cmp t) before after leaf r.page new r.here now elsewhere r.is_leaf
            level root none none none k o tree h) [
              | inl old ↦ old
              | inr entry ↦
                  Stored-new (cmp t) before before leaf r.page r.page r.here r.here (λ p n. refl)
                    r.is_leaf level root none none none r.leaf_parent r.leaf_lo r.leaf_hi k o tree
                    r.way ((entries k o).0 entry).0
            ],
        gone k o h,
      ),
      λ (h, other).
          Stored-after (cmp t) before after leaf r.page new r.here now elsewhere r.is_leaf level
            root none none none k o tree
            (λ e. (entries k o).1 (
              e,
              λ f. other (
                  order.eq_trans k (r.page.node.keys pos) key f
                    (order.eq_sym key (r.page.node.keys pos) same)),
            ))
            h,
    )
