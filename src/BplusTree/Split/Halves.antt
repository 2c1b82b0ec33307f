-- ===== src/BplusTree/Split/Halves.antt =====
-- The two leaves that a split of bplus_tree.cpp leaves, as parts of the tree.
use Prim.Native.Nat.{Ordering}
use Prim.Native.Nat.Ordering.{eq}
use atangyldb.Base.{
  ℕ, ◌+◌, ◌-◌, ◌/◌, ◌≤◌, ◌<◌, ◌≡◌, ◌⊎◌, ◌↔◌, sym, ap, ◌∙◌, subst, inl, inr, Option, some, ◌==◌, ltb,
  arith, Bool-cases,
}
use atangyldb.Trx.{Rid}
use atangyldb.BplusTree.{IndexNode, Key}
use atangyldb.BplusTree.Node.{Buffer, gather, lower_leaf, upper_leaf, next_leaf, insert_at}
use atangyldb.BplusTree.Order.{IsOrder}
use atangyldb.BplusTree.Tree.{AtLeast, Below, IsOrdered, HasEntry}
use atangyldb.BplusTree.Leaf.{IsPlace, insert_at-IsOrdered, HasEntry-insert_at, insert_at-HasEntry}
use atangyldb.BplusTree.Split.{
  low-keys, low-rids, high-keys, high-rids, low-next, high-next, low-key_num, high-key_num,
  whole-key_num,
}

module _ (cmp : Key → Key → Ordering) where
  -- A leaf was split: `low` and `high` share its entries and the new one at the key that goes up to the
  -- parent, and follow one another in the chain of the leaves.
  pub record IsSplit (order : ℕ) (n : IndexNode) (lo hi : Option Key) (key : Key) (rid : Rid)
      (new_pn : ℕ) (low high : IndexNode) : Type 0 where
    pub low_ordered : IsOrdered cmp low lo (some (high.keys 0))
    pub high_ordered : IsOrdered cmp high (some (high.keys 0)) hi
    pub entries :
        (k : Key) (r : Rid)
        → (HasEntry cmp low k r ⊎ HasEntry cmp high k r)
          ↔ (HasEntry cmp n k r ⊎ ((cmp k key ≡ eq) × (rid ≡ r)))
    pub low_next : next_leaf order low ≡ new_pn
    pub high_next : next_leaf order high ≡ next_leaf order n
    pub low_full : low.key_num ≡ order / 2
    pub all_kept : low.key_num + high.key_num ≡ n.key_num + 1

  module _ (order : ℕ) (fresh : Buffer) (pos : ℕ) (key : Key) (rid : Rid) (n blank : IndexNode)
      (new_pn : ℕ) (full : n.key_num + 1 ≡ order) (enough : 2 ≤ order) (lo hi : Option Key)
      (ord : IsOrder cmp) (o : IsOrdered cmp n lo hi) (place : IsPlace cmp n key pos)
      (at_least : AtLeast cmp lo key) (below : Below cmp hi key) where
    abbrev whole : IndexNode
    whole = insert_at pos key rid n

    abbrev low : IndexNode
    low = lower_leaf order new_pn (gather fresh pos key rid n) n

    abbrev high : IndexNode
    high = upper_leaf order (gather fresh pos key rid n) n blank

    half : ℕ
    half = order / 2

    w : IsOrdered cmp whole lo hi
    w = insert_at-IsOrdered cmp n key rid pos place lo hi ord o at_least below

    size : whole.key_num ≡ order
    size = whole-key_num order fresh pos key rid n blank new_pn place.le full enough

    lk : (j : ℕ) → j < order / 2 → low.keys j ≡ whole.keys j
    lk = low-keys order fresh pos key rid n blank new_pn place.le full enough

    hk : (j : ℕ) → j < order - order / 2 → high.keys j ≡ whole.keys (order / 2 + j)
    hk = high-keys order fresh pos key rid n blank new_pn place.le full enough

    lr : (j : ℕ) → j < order / 2 → low.rids j ≡ whole.rids j
    lr = low-rids order fresh pos key rid n blank new_pn place.le full enough

    hr : (j : ℕ) → j < order - order / 2 → high.rids j ≡ whole.rids (order / 2 + j)
    hr = high-rids order fresh pos key rid n blank new_pn place.le full enough

    ln : low.key_num ≡ order / 2
    ln = low-key_num order fresh pos key rid n blank new_pn place.le full enough

    hn : high.key_num ≡ order - order / 2
    hn = high-key_num order fresh pos key rid n blank new_pn place.le full enough

    first : high.keys 0 ≡ whole.keys (order / 2)
    first = hk 0 (omega arith) ∙ ap whole.keys (omega arith)

    low_order : IsOrdered cmp low lo (some (high.keys 0))
    low_order = record {
      ascending = λ i j h k.
          rw (lk i (omega (arith, ln)), lk j (omega (arith, ln)))
            (w.ascending i j h (omega (arith, ln, size)));
      at_least = λ i h.
          subst (AtLeast cmp lo) (sym (lk i (omega (arith, ln))))
            (w.at_least i (omega (arith, ln, size)));
      below = λ i h.
          rw (lk i (omega (arith, ln)), first)
            (w.ascending i (order / 2) (omega (arith, ln)) (omega (arith, size)));
    }

    not_below : (i : ℕ) → i < order - order / 2 → AtLeast cmp (some (high.keys 0)) (high.keys i)
    not_below i h = elim (Bool-cases (i == 0)) [
      | inl e ↦
          let zero_th : i ≡ 0 = ground arith in
          rw zero_th (ground (arith, ord.gt_of_lt (high.keys 0) (high.keys 0)))
      | inr e ↦
          let up = w.ascending (order / 2) (order / 2 + i) (ground arith) (ground (arith, size)) in
          rw (hk i h, first)
            (ground (arith, ord.gt_of_lt (whole.keys (order / 2)) (whole.keys (order / 2 + i))))
    ]

    high_order : IsOrdered cmp high (some (high.keys 0)) hi
    high_order = record {
      ascending = λ i j h k.
          rw (hk i (omega (arith, hn)), hk j (omega (arith, hn)))
            (w.ascending (order / 2 + i) (order / 2 + j) (omega arith) (omega (arith, hn, size)));
      at_least = λ i h. not_below i (omega (arith, hn));
      below = λ i h.
          subst (Below cmp hi) (sym (hk i (omega (arith, hn))))
            (w.below (order / 2 + i) (omega (arith, hn, size)));
    }

    shared :
        (k : Key) (r : Rid)
        → (HasEntry cmp low k r ⊎ HasEntry cmp high k r) ↔ HasEntry cmp whole k r
    shared k r = (
      λ h. elim h [
        | inl (i, inside, same, here) ↦ (
          i,
          omega (arith, ln, size),
          rw (lk i (omega (arith, ln))) at same,
          sym (lr i (omega (arith, ln))) ∙ here,
        )
        | inr (i, inside, same, here) ↦ (
          order / 2 + i,
          omega (arith, hn, size),
          rw (hk i (omega (arith, hn))) at same,
          sym (hr i (omega (arith, hn))) ∙ here,
        )
      ],
      λ (i, inside, same, here). elim (Bool-cases (ltb i (order / 2))) [
        | inl early ↦
            inl (i, ground (arith, ln), rw (lk i (ground arith)) same, lr i (ground arith) ∙ here)
        | inr late ↦
            let j : ℕ = i - order / 2 in
            let back : order / 2 + j ≡ i = ground arith in
            let small : j < order - order / 2 = ground (arith, size) in
            inr (
              j,
              omega (arith, hn),
              rw (hk j small, back) same,
              hr j small ∙ ap whole.rids back ∙ here,
            )
      ],
    )

    -- A full leaf in order is split for an entry with a key that it does not have, at the place of the
    -- key, for an order of at least two: both halves are in order, below and from the first key of the
    -- upper one; together they have the entries of the leaf and the new one, and no others; the lower
    -- half goes on in the chain at the new page, and the upper one where the leaf did; the lower half
    -- has half of the order of the tree as keys.
    pub halves-IsSplit : IsSplit order n lo hi key rid new_pn low high
    halves-IsSplit = record {
      low_ordered = low_order;
      high_ordered = high_order;
      entries = λ k r. (
        λ h. HasEntry-insert_at cmp n key rid pos place k r ((shared k r).0 h),
        λ h. (shared k r).1 (insert_at-HasEntry cmp n key rid pos place k r h),
      );
      low_next = low-next order fresh pos key rid n blank new_pn place.le full enough;
      high_next = high-next order fresh pos key rid n blank new_pn place.le full enough;
      low_full = ln;
      all_kept = omega (arith, ln, hn, size);
    }
