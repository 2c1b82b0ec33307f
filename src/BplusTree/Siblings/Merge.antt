-- ===== src/BplusTree/Siblings/Merge.antt =====
-- Two leaves that become one, `coalesce_node` of bplus_tree.cpp.
use Prim.Native.Nat.{Ordering}
use Prim.Native.Nat.Ordering.{lt}
use atangyldb.Base.{
  ℕ, ◌+◌, ◌-◌, ◌≤◌, ◌<◌, ◌≡◌, ◌⊎◌, ◌↔◌, refl, sym, ◌∙◌, subst, inl, inr, true, false, Option, some,
  if◌then◌else◌, ltb, arith, Bool-cases,
}
use atangyldb.Trx.{Rid}
use atangyldb.BplusTree.{IndexNode, Key}
use atangyldb.BplusTree.Arrays.{put, copy_run_lem}
use atangyldb.BplusTree.Compare.{is_lt}
use atangyldb.BplusTree.Node.{merge_leaf, next_leaf}
use atangyldb.BplusTree.Order.{IsOrder}
use atangyldb.BplusTree.Tree.{AtLeast, Below, IsOrdered, HasEntry, AtLeast-trans, Below-trans}

module _ (cmp : Key → Key → Ordering) where
  -- `coalesce_node` on two leaves that follow one another.
  module _ (order : ℕ) (left right : IndexNode)
      (room : left.key_num + right.key_num + 1 ≤ order) where
    abbrev merged : IndexNode
    merged = merge_leaf order left right

    merged-keys :
        (j : ℕ)
        → j < left.key_num + right.key_num
        → merged.keys j
          ≡ (if ltb j left.key_num then left.keys j else right.keys (j - left.key_num))
    unfolding merge_leaf
    merged-keys j h =
        ground (arith, copy_run_lem left.keys right.keys 0 right.key_num left.key_num j)

    merged-rids :
        (j : ℕ)
        → j < left.key_num + right.key_num
        → merged.rids j
          ≡ (if ltb j left.key_num then left.rids j else right.rids (j - left.key_num))
    unfolding merge_leaf put
    merged-rids j h =
        ground (arith, copy_run_lem left.rids right.rids 0 right.key_num left.key_num j)

    merged-key_num : merged.key_num ≡ left.key_num + right.key_num
    unfolding merge_leaf
    merged-key_num = refl

    merged-next : next_leaf order merged ≡ next_leaf order right
    unfolding merge_leaf put
    merged-next = ground arith

    merged-entries :
        (k : Key) (r : Rid)
        → HasEntry cmp merged k r ↔ (HasEntry cmp left k r ⊎ HasEntry cmp right k r)
    merged-entries k r = (
      λ (i, inside, same, here).
          let h : i < left.key_num + right.key_num = omega (arith, merged-key_num) in
          let same' = rw (merged-keys i h) at same in
          let here' = sym (merged-rids i h) ∙ here in
          elim (Bool-cases (ltb i left.key_num)) [
            | inl early ↦ inl (i, ground arith, rw early at same', rw early at here')
            | inr late ↦ inr (i - left.key_num, ground arith, rw late at same', rw late at here')
          ],
      λ h. elim h [
        | inl (i, inside, same, here) ↦
            let early : ltb i left.key_num ≡ true = ground arith in
            let h : i < left.key_num + right.key_num = omega arith in
            (
              i,
              omega (arith, merged-key_num),
              rw (merged-keys i h, early) same,
              merged-rids i h ∙ rw early here,
            )
        | inr (i, inside, same, here) ↦
            let j : ℕ = left.key_num + i in
            let late : ltb j left.key_num ≡ false = ground arith in
            let h : j < left.key_num + right.key_num = omega arith in
            let back : j - left.key_num ≡ i = omega arith in
            (
              j,
              omega (arith, merged-key_num),
              rw (merged-keys j h, late, back) same,
              merged-rids j h ∙ rw (late, back) here,
            )
      ],
    )

    -- A key below the separator, and one that is not.
    across :
        (ord : IsOrder cmp) (sep a b : Key)
        → cmp a sep ≡ lt
        → is_lt (cmp b sep) ≡ false
        → cmp a b ≡ lt
    across ord sep a b h k =
        ground
          (arith, ord.eq_sym b sep, ord.lt_of_gt b sep, ord.lt_eq a sep b, ord.lt_trans a sep b)

    low_key : (j : ℕ) → j < left.key_num → merged.keys j ≡ left.keys j
    low_key j h = merged-keys j (omega arith) ∙ ground arith

    high_key :
        (j : ℕ)
        → left.key_num ≤ j
        → j < left.key_num + right.key_num
        → merged.keys j ≡ right.keys (j - left.key_num)
    high_key j h k = merged-keys j k ∙ ground arith

    module _ (lo hi : Option Key) (sep : Key) (ord : IsOrder cmp)
        (l : IsOrdered cmp left lo (some sep)) (r : IsOrdered cmp right (some sep) hi)
        (at_least : AtLeast cmp lo sep) (below : Below cmp hi sep) where
      ascends :
          (i j : ℕ)
          → i < j
          → j < left.key_num + right.key_num
          → cmp (merged.keys i) (merged.keys j) ≡ lt
      ascends i j h k = elim (Bool-cases (ltb i left.key_num)) [
        | inr late ↦
            rw (high_key i (ground arith) (omega arith), high_key j (ground arith) k)
              (r.ascending (i - left.key_num) (j - left.key_num) (ground arith) (ground arith))
        | inl early ↦ elim (Bool-cases (ltb j left.key_num)) [
          | inl both ↦
              rw (low_key i (ground arith), low_key j (ground arith))
                (l.ascending i j h (ground arith))
          | inr over ↦
              rw (low_key i (ground arith), high_key j (ground arith) k)
                (across ord sep (left.keys i) (right.keys (j - left.key_num))
                  (l.below i (ground arith)) (r.at_least (j - left.key_num) (ground arith)))
        ]
      ]

      merged-IsOrdered : IsOrdered cmp merged lo hi
      merged-IsOrdered = record {
        ascending = λ i j h k. ascends i j h (omega (arith, merged-key_num));
        at_least = λ i h. elim (Bool-cases (ltb i left.key_num)) [
          | inl early ↦
              subst (AtLeast cmp lo) (sym (low_key i (ground arith))) (l.at_least i (ground arith))
          | inr late ↦
              let k : i < left.key_num + right.key_num = omega (arith, merged-key_num) in
              let m : ℕ = i - left.key_num in
              subst (AtLeast cmp lo) (sym (high_key i (ground arith) k))
                (AtLeast-trans cmp ord lo (right.keys m) sep (r.at_least m (ground arith)) at_least)
        ];
        below = λ i h. elim (Bool-cases (ltb i left.key_num)) [
          | inl early ↦
              subst (Below cmp hi) (sym (low_key i (ground arith)))
                (Below-trans cmp ord hi (left.keys i) sep (l.below i (ground arith)) below)
          | inr late ↦
              let k : i < left.key_num + right.key_num = omega (arith, merged-key_num) in
              subst (Below cmp hi) (sym (high_key i (ground arith) k))
                (r.below (i - left.key_num) (ground arith))
        ];
      }

      -- Two neighbouring leaves whose entries fit into one, with the separator `sep` between them: the
      -- left one gets the entries of both and no others, stays in order, and goes on in the chain of the
      -- leaves where the right one did.
      pub merge_leaf-Merged :
          IsOrdered cmp (merge_leaf order left right) lo hi
          × (next_leaf order (merge_leaf order left right) ≡ next_leaf order right)
          × ((k : Key) (rid : Rid)
              → HasEntry cmp (merge_leaf order left right) k rid
                ↔ (HasEntry cmp left k rid ⊎ HasEntry cmp right k rid))
      merge_leaf-Merged = (merged-IsOrdered, merged-next, merged-entries)
