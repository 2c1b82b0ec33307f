-- ===== src/BplusTree/Siblings/Shares.antt =====
-- Nodes that share their entries with a neighbour, `redistribute_nodes` of bplus_tree.cpp.
use Prim.Native.Nat.{Ordering}
use Prim.Native.Nat.Ordering.{lt, eq}
use atangyldb.Base.{
  ℕ, ◌+◌, ◌-◌, ◌≤◌, ◌<◌, ◌≡◌, ◌≢◌, refl, sym, ap, ◌∙◌, inl, inr, Option, ◌==◌, ltb, arith,
  Bool-cases,
}
use atangyldb.Trx.{Rid}
use atangyldb.BplusTree.{IndexNode, Key}
use atangyldb.BplusTree.Arrays.{put, shift_down, shift_down_lem, shift_up_lem}
use atangyldb.BplusTree.Node.{drop_first, prepend_key}
use atangyldb.BplusTree.Order.{IsOrder}
use atangyldb.BplusTree.Tree.{IsOrdered, HasEntry}

module _ (cmp : Key → Key → Ordering) (n : IndexNode) (key : Key) where
  prepend_key-key_num : (prepend_key key n).key_num ≡ n.key_num + 1
  unfolding prepend_key
  prepend_key-key_num = refl

  prepend_key-rids : (prepend_key key n).rids 0 ≡ n.rids 0
  unfolding prepend_key
  prepend_key-rids = ground (arith, shift_up_lem n.rids 0 n.key_num 0)

  prepend_key-keys : (j : ℕ) → 0 < j → j ≤ n.key_num → (prepend_key key n).keys j ≡ n.keys (j - 1)
  unfolding prepend_key put
  prepend_key-keys j h k = ground (arith, shift_up_lem n.keys 0 n.key_num j)

  -- A leaf in order with some key takes a lesser key in front, and no record id with it: the only record
  -- id that it has for the key afterwards is the one of the entry that was first.
  pub prepend_key-wrong_rid :
      (lo hi : Option Key) (rid : Rid)
      → IsOrder cmp
      → IsOrdered cmp n lo hi
      → 0 < n.key_num
      → cmp key (n.keys 0) ≡ lt
      → HasEntry cmp (prepend_key key n) key rid
      → rid ≡ n.rids 0
  prepend_key-wrong_rid lo hi rid order o some_keys least (i, inside, same, here) =
      elim (Bool-cases (i == 0)) [
        | inl e ↦
            let first : i ≡ 0 = ground arith in
            sym here ∙ ap (prepend_key key n).rids first ∙ first_rid
        | inr e ↦
            let behind : cmp key (n.keys (i - 1)) ≡ lt = greater (i - 1) (ground (arith, size)) in
            let moved : cmp key (n.keys (i - 1)) ≡ eq =
              rw (later_key i (ground arith) (ground (arith, size))) at same in
            absurd (cc)
      ]
    where
      size : (prepend_key key n).key_num ≡ n.key_num + 1
      size = prepend_key-key_num

      first_rid : (prepend_key key n).rids 0 ≡ n.rids 0
      first_rid = prepend_key-rids

      later_key : (j : ℕ) → 0 < j → j ≤ n.key_num → (prepend_key key n).keys j ≡ n.keys (j - 1)
      later_key = prepend_key-keys

      greater : (j : ℕ) → j < n.key_num → cmp key (n.keys j) ≡ lt
      greater j h = elim (Bool-cases (j == 0)) [
        | inl e ↦ let first : j ≡ 0 = ground arith in rw first least
        | inr e ↦ order.lt_trans key (n.keys 0) (n.keys j) least (o.ascending 0 j (ground arith) h)
      ]

-- An inner node with some key, whose children are on different pages, gives its first child away: none of
-- the children that it has afterwards is the one that was its last.
pub drop_first-loses_child :
    (n : IndexNode)
    → 0 < n.key_num
    → ((i j : ℕ)
        → i ≤ n.key_num
        → j ≤ n.key_num
        → (n.rids i).page_num ≡ (n.rids j).page_num
        → i ≡ j)
    → (i : ℕ) → i ≤ (drop_first n).key_num
    → ((drop_first n).rids i).page_num ≢ (n.rids n.key_num).page_num
unfolding drop_first
drop_first-loses_child n some_keys distinct i h e = elim (Bool-cases (ltb i (n.key_num - 1))) [
  | inl early ↦
      let moved : shift_down n.rids 0 (n.key_num - 1) i ≡ n.rids (i + 1) =
        shift_down_lem n.rids 0 (n.key_num - 1) i ∙ ground arith in
      let clash =
        distinct (i + 1) n.key_num (ground arith) (omega arith)
          (sym (ap (λ (r : Rid). r.page_num) moved) ∙ e) in
      ground arith
  | inr late ↦
      let stayed : shift_down n.rids 0 (n.key_num - 1) i ≡ n.rids i =
        shift_down_lem n.rids 0 (n.key_num - 1) i ∙ ground arith in
      let clash =
        distinct i n.key_num (omega arith) (omega arith)
          (sym (ap (λ (r : Rid). r.page_num) stayed) ∙ e) in
      omega arith
]
