-- ===== src/BplusTree/Tree/Onward.antt =====
-- The way down to a leaf whose page was replaced.
use Prim.Native.Nat.{Ordering}
use atangyldb.Base.{ℕ, zero, suc, ◌≤◌, ◌≡◌, ◌≢◌, subst, true, Option, some, arith}
use atangyldb.BplusTree.{IndexPage, Key}
use atangyldb.BplusTree.Tree.{child, lower_bound, upper_bound, IsTree, WayDown}
use atangyldb.BplusTree.Tree.Replace.{inner_page}

module _ (cmp : Key → Key → Ordering) (c c' : ℕ → Option IndexPage) (leaf : ℕ) (old new : IndexPage)
    (here : c leaf ≡ some old) (here' : c' leaf ≡ some new)
    (others : (p : ℕ) → p ≢ leaf → c' p ≡ c p) (old_leaf : old.node.is_leaf ≡ true) where
  pub WayDown-after :
      (level pn : ℕ) (parent : Option ℕ) (lo hi : Option Key) (parent' : Option ℕ)
      (lo' hi' : Option Key)
      → IsTree cmp c level pn parent lo hi
      → WayDown cmp c level pn parent lo hi leaf parent' lo' hi'
      → WayDown cmp c' level pn parent lo hi leaf parent' lo' hi'
  WayDown-after zero pn parent lo hi parent' lo' hi' tree way = way
  WayDown-after (suc level) pn parent lo hi parent' lo' hi' (page, at, inner, _, _, _, trees)
        (page', at', (i, le, way)) =
      let e : page' ≡ page = ground (arith, at, at') in
      let le' : i ≤ page.node.key_num = subst (λ (p : IndexPage). i ≤ p.node.key_num) e le in
      let way' : WayDown cmp c level (child page.node i) (some pn) (lower_bound cmp page.node lo i)
          (upper_bound cmp page.node hi i) leaf parent' lo' hi' =
        subst
          (λ (p : IndexPage).
            WayDown cmp c level (child p.node i) (some pn) (lower_bound cmp p.node lo i)
              (upper_bound cmp p.node hi i) leaf parent' lo' hi')
          e way in
      (
        page,
        inner_page cmp c c' leaf old new here here' others old_leaf pn page at inner,
        (
          i,
          le',
          WayDown-after level (child page.node i) (some pn) _ _ parent' lo' hi' (trees i le') way',
        ),
      )
