-- ===== src/BplusTree/Tree/Replace.antt =====
-- A tree in which the page of one leaf is replaced.
use Prim.Native.Nat.{Ordering}
use atangyldb.Base.{
  ℕ, zero, suc, ◌≤◌, ◌≡◌, ◌≢◌, ◌⊎◌, sym, ap, ◌∙◌, subst, inl, inr, true, false, Option, some, ◌==◌,
  arith, Bool-cases,
}
use atangyldb.Trx.{Rid}
use atangyldb.BplusTree.{IndexPage, Key}
use atangyldb.BplusTree.Tree.{
  child, IsOrdered, lower_bound, upper_bound, Within, IsSeparate, IsTree, HasEntry, Stored, WayDown,
}

module _ (cmp : Key → Key → Ordering) (c c' : ℕ → Option IndexPage) (leaf : ℕ) (old new : IndexPage)
    (here : c leaf ≡ some old) (here' : c' leaf ≡ some new)
    (others : (p : ℕ) → p ≢ leaf → c' p ≡ c p) (old_leaf : old.node.is_leaf ≡ true) where
  inner-ne : (pn : ℕ) (page : IndexPage) → c pn ≡ some page → page.node.is_leaf ≡ false → pn ≢ leaf
  inner-ne pn page at inner e =
      let at' : c leaf ≡ some page = subst (λ p. c p ≡ some page) e at in
      let same : old ≡ page = ground (arith, here, at') in
      let lost : old.node.is_leaf ≡ false = ap (λ (p : IndexPage). p.node.is_leaf) same ∙ inner in
      absurd (cc)

  -- An inner node is the same before and after.
  pub inner_page :
      (pn : ℕ) (page : IndexPage) → c pn ≡ some page → page.node.is_leaf ≡ false → c' pn ≡ some page
  inner_page pn page at inner = others pn (inner-ne pn page at inner) ∙ at

  pub Within-back :
      (level pn : ℕ) (parent : Option ℕ) (lo hi : Option Key) (q : ℕ)
      → IsTree cmp c level pn parent lo hi
      → Within c' level pn q
      → Within c level pn q
  Within-back zero pn parent lo hi q tree w = w
  Within-back (suc level) pn parent lo hi q tree (inl e) = inl e
  Within-back (suc level) pn parent lo hi q (page, at, inner, _, _, _, trees)
        (inr (page', at', (i, le, w))) =
      let now = inner_page pn page at inner in
      let e : page' ≡ page = ground (arith, now, at') in
      let le' : i ≤ page.node.key_num = subst (λ (p : IndexPage). i ≤ p.node.key_num) e le in
      let w' : Within c' level (child page.node i) q =
        subst (λ (p : IndexPage). Within c' level (child p.node i) q) e w in
      inr
        (page, at, (i, le', Within-back level (child page.node i) (some pn) _ _ q (trees i le') w'))

  IsSeparate-still :
      (level pn : ℕ) (page : IndexPage) (lo hi : Option Key)
      → IsSeparate c level pn page.node
      → ((i : ℕ)
          → i ≤ page.node.key_num
          → IsTree cmp c level
              (child page.node i)
              (some pn)
              (lower_bound cmp page.node lo i)
              (upper_bound cmp page.node hi i))
      → IsSeparate c' level pn page.node
  IsSeparate-still level pn page lo hi s trees = record {
    apart = λ i j q a b n w v.
        s.apart i j q a b n (Within-back level (child page.node i) (some pn) _ _ q (trees i a) w)
          (Within-back level (child page.node j) (some pn) _ _ q (trees j b) v);
    below_top = λ i q a w.
        s.below_top i q a (Within-back level (child page.node i) (some pn) _ _ q (trees i a) w);
  }

  off-IsTree :
      (level pn : ℕ) (parent : Option ℕ) (lo hi : Option Key)
      → IsTree cmp c level pn parent lo hi
      → ¬ Within c level pn leaf
      → IsTree cmp c' level pn parent lo hi
  off-IsTree zero pn parent lo hi (page, at, is_leaf, has_parent, ordered) off =
      (page, others pn (λ e. off (sym e)) ∙ at, is_leaf, has_parent, ordered)
  off-IsTree (suc level) pn parent lo hi (page, at, inner, has_parent, ordered, separate, trees)
        off =
      (
        page,
        inner_page pn page at inner,
        inner,
        has_parent,
        ordered,
        IsSeparate-still level pn page lo hi separate trees,
        λ i le.
            off-IsTree level (child page.node i) (some pn) _ _ (trees i le)
              (λ w. off (inr (page, at, (i, le, w)))),
      )

  way-Within :
      (level pn : ℕ) (parent : Option ℕ) (lo hi : Option Key) (parent' : Option ℕ)
      (lo' hi' : Option Key)
      → WayDown cmp c level pn parent lo hi leaf parent' lo' hi'
      → Within c level pn leaf
  way-Within zero pn parent lo hi parent' lo' hi' way = way.0
  way-Within (suc level) pn parent lo hi parent' lo' hi' (page, at, (i, le, way)) =
      inr
        (page, at, (i, le, way-Within level (child page.node i) (some pn) _ _ parent' lo' hi' way))

  -- The tree stays one if the new leaf is in order for the range of the old one.
  pub replace-IsTree :
      (level pn : ℕ) (parent : Option ℕ) (lo hi : Option Key) (parent' : Option ℕ)
      (lo' hi' : Option Key)
      → IsTree cmp c level pn parent lo hi
      → WayDown cmp c level pn parent lo hi leaf parent' lo' hi'
      → new.node.is_leaf ≡ true
      → new.node.parent ≡ parent'
      → IsOrdered cmp new.node lo' hi'
      → IsTree cmp c' level pn parent lo hi
  replace-IsTree zero pn parent lo hi parent' lo' hi' tree (e, p, l, h) is_leaf has_parent ordered =
      (new, subst (λ q. c' q ≡ some new) e here', is_leaf, has_parent ∙ p, rw (l, h) at ordered)
  replace-IsTree (suc level) pn parent lo hi parent' lo' hi'
        (page, at, inner, old_parent, old_ordered, separate, trees) (page', at', (i, le, way))
        is_leaf has_parent ordered =
      let e : page' ≡ page = ground (arith, at, at') in
      let le' : i ≤ page.node.key_num = subst (λ (p : IndexPage). i ≤ p.node.key_num) e le in
      let way' : WayDown cmp c level (child page.node i) (some pn) (lower_bound cmp page.node lo i)
          (upper_bound cmp page.node hi i) leaf parent' lo' hi' =
        subst
          (λ (p : IndexPage).
            WayDown cmp c level (child p.node i) (some pn) (lower_bound cmp p.node lo i)
              (upper_bound cmp p.node hi i) leaf parent' lo' hi')
          e way in
      let there = way-Within level (child page.node i) (some pn) _ _ parent' lo' hi' way' in
      let changed =
        replace-IsTree level (child page.node i) (some pn) (lower_bound cmp page.node lo i)
          (upper_bound cmp page.node hi i) parent' lo' hi' (trees i le') way' is_leaf has_parent
          ordered in
      (
        page,
        inner_page pn page at inner,
        inner,
        old_parent,
        old_ordered,
        IsSeparate-still level pn page lo hi separate trees,
        λ j k. elim (Bool-cases (i == j)) [
          | inl same ↦
              let ij : i ≡ j = ground arith in
              subst
                (λ (n : ℕ).
                  IsTree cmp c' level (child page.node n) (some pn) (lower_bound cmp page.node lo n)
                    (upper_bound cmp page.node hi n))
                ij changed
          | inr differ ↦
              off-IsTree level (child page.node j) (some pn) _ _ (trees j k)
                (separate.apart i j leaf le' k (ground arith) there)
        ],
      )

  pub Stored-before :
      (level pn : ℕ) (parent : Option ℕ) (lo hi : Option Key) (key : Key) (rid : Rid)
      → IsTree cmp c level pn parent lo hi
      → Stored cmp c' level pn key rid
      → Stored cmp c level pn key rid ⊎ HasEntry cmp new.node key rid
  Stored-before zero pn parent lo hi key rid tree (page, at, entry) =
      elim (Bool-cases (pn == leaf)) [
        | inl is_it ↦
            let e : pn ≡ leaf = ground arith in
            let at' : c' leaf ≡ some page = subst (λ p. c' p ≡ some page) e at in
            let same : page ≡ new = ground (arith, here', at') in
            inr (subst (λ (p : IndexPage). HasEntry cmp p.node key rid) same entry)
        | inr other ↦ inl (page, sym (others pn (ground arith)) ∙ at, entry)
      ]
  Stored-before (suc level) pn parent lo hi key rid (page, at, inner, _, _, _, trees)
        (page', at', (i, le, stored)) =
      let now = inner_page pn page at inner in
      let e : page' ≡ page = ground (arith, now, at') in
      let le' : i ≤ page.node.key_num = subst (λ (p : IndexPage). i ≤ p.node.key_num) e le in
      let stored' : Stored cmp c' level (child page.node i) key rid =
        subst (λ (p : IndexPage). Stored cmp c' level (child p.node i) key rid) e stored in
      elim (Stored-before level (child page.node i) (some pn) _ _ key rid (trees i le') stored') [
        | inl before ↦ inl (page, at, (i, le', before))
        | inr entry ↦ inr entry
      ]

  -- An entry that the new leaf has, if the old one had it, stays.
  pub Stored-after :
      (level pn : ℕ) (parent : Option ℕ) (lo hi : Option Key) (key : Key) (rid : Rid)
      → IsTree cmp c level pn parent lo hi
      → (HasEntry cmp old.node key rid → HasEntry cmp new.node key rid)
      → Stored cmp c level pn key rid
      → Stored cmp c' level pn key rid
  Stored-after zero pn parent lo hi key rid tree keep (page, at, entry) =
      elim (Bool-cases (pn == leaf)) [
        | inl is_it ↦
            let e : pn ≡ leaf = ground arith in
            let at' : c leaf ≡ some page = subst (λ p. c p ≡ some page) e at in
            let same : page ≡ old = ground (arith, here, at') in
            (
              new,
              ap c' e ∙ here',
              keep (subst (λ (p : IndexPage). HasEntry cmp p.node key rid) same entry),
            )
        | inr other ↦ (page, others pn (ground arith) ∙ at, entry)
      ]
  Stored-after (suc level) pn parent lo hi key rid (page, at, inner, _, _, _, trees) keep
        (page', at', (i, le, stored)) =
      let e : page' ≡ page = ground (arith, at, at') in
      let le' : i ≤ page.node.key_num = subst (λ (p : IndexPage). i ≤ p.node.key_num) e le in
      let stored' : Stored cmp c level (child page.node i) key rid =
        subst (λ (p : IndexPage). Stored cmp c level (child p.node i) key rid) e stored in
      (
        page,
        inner_page pn page at inner,
        (
          i,
          le',
          Stored-after level (child page.node i) (some pn) _ _ key rid (trees i le') keep stored',
        ),
      )

  -- What the new leaf has is in the tree.
  pub Stored-new :
      (level pn : ℕ) (parent : Option ℕ) (lo hi : Option Key) (parent' : Option ℕ)
      (lo' hi' : Option Key) (key : Key) (rid : Rid)
      → IsTree cmp c level pn parent lo hi
      → WayDown cmp c level pn parent lo hi leaf parent' lo' hi'
      → HasEntry cmp new.node key rid
      → Stored cmp c' level pn key rid
  Stored-new zero pn parent lo hi parent' lo' hi' key rid tree (e, p, l, h) entry =
      (new, subst (λ q. c' q ≡ some new) e here', entry)
  Stored-new (suc level) pn parent lo hi parent' lo' hi' key rid (page, at, inner, _, _, _, trees)
        (page', at', (i, le, way)) entry =
      let e : page' ≡ page = ground (arith, at, at') in
      let le' : i ≤ page.node.key_num = subst (λ (p : IndexPage). i ≤ p.node.key_num) e le in
      let way' : WayDown cmp c level (child page.node i) (some pn) (lower_bound cmp page.node lo i)
          (upper_bound cmp page.node hi i) leaf parent' lo' hi' =
        subst
          (λ (p : IndexPage).
            WayDown cmp c level (child p.node i) (some pn) (lower_bound cmp p.node lo i)
              (upper_bound cmp p.node hi i) leaf parent' lo' hi')
          e way in
      (
        page,
        inner_page pn page at inner,
        (
          i,
          le',
          Stored-new level (child page.node i) (some pn) _ _ parent' lo' hi' key rid (trees i le')
              way' entry,
        ),
      )
