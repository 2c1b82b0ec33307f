-- ===== src/BplusTree/Siblings.antt =====
-- A leaf that loses an entry, `delete_entry_from_node` of bplus_tree.cpp.
pub mod Merge
pub mod Shares
use Prim.Native.Nat.{Ordering}
use Prim.Native.Nat.Ordering.{lt, eq, gt}
use atangyldb.Base.{
  ℕ, ◌+◌, ◌-◌, ◌≤◌, ◌<◌, ◌≡◌, ◌≢◌, ◌⊎◌, ◌↔◌, refl, sym, ap, ◌∙◌, subst, inl, inr, true, false, ◌&&◌,
  Option, none, some, if◌then◌else◌, ◌==◌, ltb, leb, arith, Bool-cases,
}
use atangyldb.Trx.{Rid}
use atangyldb.BplusTree.{IndexNode, Key}
use atangyldb.BplusTree.Arrays.{put, shift_down, shift_down_lem, shift_up_lem, copy_run_lem}
use atangyldb.BplusTree.Compare.{is_lt}
use atangyldb.BplusTree.Node.{
  delete_at, merge_leaf, append_entry, drop_first, prepend_key, next_leaf,
}
use atangyldb.BplusTree.Order.{IsOrder}
use atangyldb.BplusTree.Tree.{AtLeast, Below, IsOrdered, HasEntry}

module _ (cmp : Key → Key → Ordering) where
  -- A node in order has a key once.
  pub key_once :
      (n : IndexNode) (lo hi : Option Key) (k : Key) (i j : ℕ)
      → IsOrder cmp
      → IsOrdered cmp n lo hi
      → i < n.key_num
      → j < n.key_num
      → cmp k (n.keys i) ≡ eq
      → cmp k (n.keys j) ≡ eq
      → i ≡ j
  key_once n lo hi k i j order o a b e f = elim (Bool-cases (ltb i j)) [
    | inl less ↦
        let up = order.eq_lt k (n.keys i) (n.keys j) e (o.ascending i j (ground arith) b) in
        absurd (cc)
    | inr not_less ↦ elim (Bool-cases (ltb j i)) [
      | inl more ↦
          let up = order.eq_lt k (n.keys j) (n.keys i) f (o.ascending j i (ground arith) a) in
          absurd (cc)
      | inr not_more ↦ ground arith
    ]
  ]

  module _ (n : IndexNode) (pos : ℕ) (inside : pos < n.key_num) (is_leaf : n.is_leaf ≡ true) where
    abbrev less : IndexNode
    less = delete_at pos n

    delete_at-keys :
        (j : ℕ) → j + 1 < n.key_num → less.keys j ≡ (if ltb j pos then n.keys j else n.keys (j + 1))
    unfolding delete_at
    delete_at-keys j h = ground (arith, shift_down_lem n.keys pos (n.key_num - 1 - pos) j)

    delete_at-rids :
        (j : ℕ) → j + 1 < n.key_num → less.rids j ≡ (if ltb j pos then n.rids j else n.rids (j + 1))
    unfolding delete_at
    delete_at-rids j h =
        rw (delete_at, is_leaf) (ground (arith, shift_down_lem n.rids pos (n.key_num - 1 - pos) j))

    delete_at-key_num : less.key_num ≡ n.key_num - 1
    unfolding delete_at
    delete_at-key_num = refl

    -- The entry at `j` was at `from j`.
    abbrev from : ℕ → ℕ
    from j = if ltb j pos then j else j + 1

    from_key : (j : ℕ) → j + 1 < n.key_num → less.keys j ≡ n.keys (from j)
    from_key j h = delete_at-keys j h ∙ ground arith

    from_rid : (j : ℕ) → j + 1 < n.key_num → less.rids j ≡ n.rids (from j)
    from_rid j h = delete_at-rids j h ∙ ground arith

    -- A leaf in order that loses an entry is in order.
    pub delete_at-IsOrdered :
        (lo hi : Option Key) → IsOrdered cmp n lo hi → IsOrdered cmp less lo hi
    delete_at-IsOrdered lo hi o = record {
      ascending = λ i j h k.
          let k' : j + 1 < n.key_num = omega (arith, delete_at-key_num) in
          rw (from_key i (omega arith), from_key j k')
            (o.ascending (from i) (from j) (ground arith) (ground arith));
      at_least = λ i h.
          let h' : i + 1 < n.key_num = omega (arith, delete_at-key_num) in
          subst (AtLeast cmp lo) (sym (from_key i h')) (o.at_least (from i) (ground arith));
      below = λ i h.
          let h' : i + 1 < n.key_num = omega (arith, delete_at-key_num) in
          subst (Below cmp hi) (sym (from_key i h')) (o.below (from i) (ground arith));
    }

    back :
        (k : Key) (r : Rid)
        → (cmp k (n.keys pos) ≢ eq)
        → (i : ℕ) → i < n.key_num
        → cmp k (n.keys i) ≡ eq
        → n.rids i ≡ r
        → HasEntry cmp less k r
    back k r other i within same here = elim (Bool-cases (ltb i pos)) [
      | inl early ↦
          let h : i + 1 < n.key_num = ground arith in
          (
            i,
            omega (arith, delete_at-key_num),
            rw (delete_at-keys i h, early) same,
            delete_at-rids i h ∙ rw early here,
          )
      | inr late ↦
          let apart : i ≢ pos = λ e. other (rw e at same) in
          let j : ℕ = i - 1 in
          let h : j + 1 < n.key_num = ground arith in
          let after : ltb j pos ≡ false = ground arith in
          let there : j + 1 ≡ i = ground arith in
          (
            j,
            omega (arith, delete_at-key_num),
            rw (delete_at-keys j h, after, there) same,
            delete_at-rids j h ∙ rw (after, there) here,
          )
    ]

    -- A leaf in order, after the entry at a position is deleted, has exactly the entries that it had with
    -- another key than the one at that position, with the same record ids.
    pub delete_at-HasEntry :
        (order : IsOrder cmp) (lo hi : Option Key)
        → IsOrdered cmp n lo hi
        → (k : Key) (r : Rid)
        → HasEntry cmp less k r ↔ (HasEntry cmp n k r × (cmp k (n.keys pos) ≢ eq))
    delete_at-HasEntry order lo hi o k r = (
      λ (i, within, same, here).
          let h : i + 1 < n.key_num = omega (arith, delete_at-key_num) in
          let same' : cmp k (n.keys (from i)) ≡ eq = rw (from_key i h) at same in
          (
            (from i, ground arith, same', sym (from_rid i h) ∙ here),
            λ e.
                let once = key_once n lo hi k (from i) pos order o (ground arith) inside same' e in
                ground arith,
          ),
      λ ((i, within, same, here), other). back k r other i within same here,
    )
