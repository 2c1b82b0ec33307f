-- ===== src/BplusTree/Tree/Way.antt =====
-- The way down to a leaf, and the keys of its range.
use Prim.Native.Nat.{Ordering}
use atangyldb.Base.{ℕ, zero, suc, ◌≤◌, ◌≡◌, sym, ◌∙◌, subst, Option, some, arith}
use atangyldb.Trx.{Rid}
use atangyldb.BplusTree.{IndexPage, Key}
use atangyldb.BplusTree.Node.{upper_position}
use atangyldb.BplusTree.Order.{IsOrder}
use atangyldb.BplusTree.Tree.{
  child, AtLeast, Below, lower_bound, upper_bound, IsTree, HasEntry, Stored, WayDown, widen,
  upper_unique, upper_position-IsUpper, Stored-range,
}

module _ (cmp : Key → Key → Ordering) (order : IsOrder cmp) (c : ℕ → Option IndexPage) (leaf : ℕ)
    (page_of : IndexPage) (here : c leaf ≡ some page_of) (parent' : Option ℕ) (lo' hi' : Option Key)
    (key : Key) (at_least : AtLeast cmp lo' key) (below : Below cmp hi' key) where
  -- The range of the leaf is within that of the tree.
  pub way_range :
      (level pn : ℕ) (parent : Option ℕ) (lo hi : Option Key)
      → IsTree cmp c level pn parent lo hi
      → WayDown cmp c level pn parent lo hi leaf parent' lo' hi'
      → AtLeast cmp lo key × Below cmp hi key
  way_range zero pn parent lo hi tree (e, p, l, h) =
      (subst (λ b. AtLeast cmp b key) l at_least, subst (λ b. Below cmp b key) h below)
  way_range (suc level) pn parent lo hi (page, at, inner, _, ordered, _, trees)
        (page', at', (i, le, way)) =
      let e : page' ≡ page = ground (arith, at, at') in
      let le' : i ≤ page.node.key_num = subst (λ (p : IndexPage). i ≤ p.node.key_num) e le in
      let way' =
        subst
          (λ (p : IndexPage).
            WayDown cmp c level (child p.node i) (some pn) (lower_bound cmp p.node lo i)
              (upper_bound cmp p.node hi i) leaf parent' lo' hi')
          e way in
      let r =
        way_range level (child page.node i) (some pn) (lower_bound cmp page.node lo i)
          (upper_bound cmp page.node hi i) (trees i le') way' in
      widen cmp order page.node lo hi i key ordered le' r.0 r.1

  -- An entry with the key is in the leaf.
  pub Stored_on_way :
      (level pn : ℕ) (parent : Option ℕ) (lo hi : Option Key) (rid : Rid)
      → IsTree cmp c level pn parent lo hi
      → WayDown cmp c level pn parent lo hi leaf parent' lo' hi'
      → Stored cmp c level pn key rid
      → HasEntry cmp page_of.node key rid
  Stored_on_way zero pn parent lo hi rid tree (e, p, l, h) (page', at', entry) =
      let at : c leaf ≡ some page' = subst (λ q. c q ≡ some page') (sym e) at' in
      let same : page' ≡ page_of = ground (arith, here, at) in
      subst (λ (p : IndexPage). HasEntry cmp p.node key rid) same entry
  Stored_on_way (suc level) pn parent lo hi rid (page, at, inner, _, ordered, _, trees)
        (page', at', (i, le, way)) (page'', at'', (j, le', stored)) =
      let e : page' ≡ page = ground (arith, at, at') in
      let f : page'' ≡ page = ground (arith, at, at'') in
      let i_le : i ≤ page.node.key_num = subst (λ (p : IndexPage). i ≤ p.node.key_num) e le in
      let j_le : j ≤ page.node.key_num = subst (λ (p : IndexPage). j ≤ p.node.key_num) f le' in
      let way' =
        subst
          (λ (p : IndexPage).
            WayDown cmp c level (child p.node i) (some pn) (lower_bound cmp p.node lo i)
              (upper_bound cmp p.node hi i) leaf parent' lo' hi')
          e way in
      let stored' : Stored cmp c level (child page.node j) key rid =
        subst (λ (p : IndexPage). Stored cmp c level (child p.node j) key rid) f stored in
      let mine =
        way_range level (child page.node i) (some pn) (lower_bound cmp page.node lo i)
          (upper_bound cmp page.node hi i) (trees i i_le) way' in
      let its =
        Stored-range cmp order c level (child page.node j) (some pn)
          (lower_bound cmp page.node lo j) (upper_bound cmp page.node hi j) key rid (trees j j_le)
          stored' in
      let s = upper_position-IsUpper cmp key page.node in
      let pos = upper_position cmp key page.node in
      let i_is = upper_unique cmp order page.node lo hi i pos key ordered s i_le mine.0 mine.1 in
      let j_is = upper_unique cmp order page.node lo hi j pos key ordered s j_le its.0 its.1 in
      let one : j ≡ i = j_is ∙ sym i_is in
      Stored_on_way level (child page.node i) (some pn) (lower_bound cmp page.node lo i)
        (upper_bound cmp page.node hi i) rid (trees i i_le) way'
        (subst (λ n. Stored cmp c level (child page.node n) key rid) one stored')
