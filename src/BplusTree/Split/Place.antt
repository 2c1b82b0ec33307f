-- ===== src/BplusTree/Split/Place.antt =====
-- The position at which a split of bplus_tree.cpp puts the new entry. Unlike `insert_into_leaf` it does not
-- look for the key.
use Prim.Native.Nat.{Ordering}
use Prim.Native.Nat.Ordering.{lt, eq}
use atangyldb.Base.{ℕ, ◌≤◌, ◌<◌, ◌≡◌, ◌≢◌, refl, inl, inr, Option, ◌==◌, arith, Bool-cases}
use atangyldb.Trx.{Rid}
use atangyldb.BplusTree.{IndexNode, Key}
use atangyldb.BplusTree.Node.{upper_position}
use atangyldb.BplusTree.Order.{IsOrder}
use atangyldb.BplusTree.Tree.{IsOrdered, HasEntry, IsUpper, upper_position-IsUpper}
use atangyldb.BplusTree.Leaf.{IsPlace}

module _ (cmp : Key → Key → Ordering) (order : IsOrder cmp) (n : IndexNode) (key : Key)
    (lo hi : Option Key) (o : IsOrdered cmp n lo hi) where
  abbrev pos : ℕ
  pos = upper_position cmp key n

  s : IsUpper cmp key n pos
  s = upper_position-IsUpper cmp key n

  behind : (j : ℕ) → pos ≤ j → j < n.key_num → cmp key (n.keys j) ≡ lt
  behind j h k =
      let stop = s.at_stop (omega arith) in
      let here : cmp key (n.keys pos) ≡ lt = ground arith in
      elim (Bool-cases (pos == j)) [
        | inl same ↦ let e : pos ≡ j = ground arith in rw e at here
        | inr later ↦
            order.lt_trans key (n.keys pos) (n.keys j) here (o.ascending pos j (ground arith) k)
      ]

  -- For a new key it is the right place.
  pub upper_position-IsPlace : ((rid : Rid) → ¬ HasEntry cmp n key rid) → IsPlace cmp n key pos
  upper_position-IsPlace new = record {
    le = omega (arith, s.most);
    before = λ j h.
        let not_less = s.before j (omega arith) h in
        let differs : cmp key (n.keys j) ≢ eq =
          λ e. new (n.rids j) (j, omega (arith, s.most), e, refl) in
        ground (arith, order.lt_of_gt key (n.keys j));
    after = behind;
  }
