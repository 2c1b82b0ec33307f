-- ===== src/BplusTree/Leaf.antt =====
-- A leaf that takes an entry: the position that `insert_into_leaf` of bplus_tree.cpp finds, and the loop
-- that moves the entries behind it.
use Prim.Native.Nat.{Ordering}
use Prim.Native.Nat.Ordering.{lt, eq}
use atangyldb.Base.{
  ℕ, ◌+◌, ◌-◌, ◌≤◌, ◌<◌, ◌≡◌, ◌⊎◌, refl, sym, ◌∙◌, subst, inl, inr, true, false, not, ◌&&◌, Option,
  if◌then◌else◌, ◌==◌, ltb, leb, arith, Bool-cases,
}
use atangyldb.Trx.{Rid}
use atangyldb.BplusTree.{IndexNode, Key}
use atangyldb.BplusTree.Arrays.{put, shift_up, shift_up_lem, scan_until-Stops}
use atangyldb.BplusTree.Compare.{is_gt}
use atangyldb.BplusTree.Node.{lower_position, is_duplicate, insert_at}
use atangyldb.BplusTree.Order.{IsOrder}
use atangyldb.BplusTree.Tree.{AtLeast, Below, IsOrdered, HasEntry}

module _ {A : Type 0} where
  -- An element put in at `pos`, with the `n - pos` elements behind it moved up.
  pub put-shift_up :
      (a : ℕ → A) (pos n : ℕ) (v : A) (j : ℕ)
      → pos ≤ n
      → put (shift_up a pos (n - pos)) pos v j
        ≡ (if j == pos then v else if ltb pos j && leb j n then a (j - 1) else a j)
  unfolding put
  put-shift_up a pos n v j h = ground (arith, shift_up_lem a pos (n - pos) j)

module _ (cmp : Key → Key → Ordering) where
  -- The place of a new key: after the keys that are less, before those that are greater.
  pub record IsPlace (n : IndexNode) (key : Key) (pos : ℕ) : Type 0 where
    pub le : pos ≤ n.key_num
    pub before : (j : ℕ) → j < pos → cmp (n.keys j) key ≡ lt
    pub after : (j : ℕ) → pos ≤ j → j < n.key_num → cmp key (n.keys j) ≡ lt

  module _ (order : IsOrder cmp) where
    -- The position of `insert_into_leaf` is that place, unless the leaf has the key.
    pub lower_position-IsPlace :
        (n : IndexNode) (key : Key) (lo hi : Option Key)
        → IsOrdered cmp n lo hi
        → is_duplicate cmp key n ≡ false
        → IsPlace n key (lower_position cmp key n)
    unfolding lower_position is_duplicate
    lower_position-IsPlace n key lo hi o new =
        let pos = lower_position cmp key n in
        let s = scan_until-Stops (λ i. not (is_gt (cmp key (n.keys i)))) n.key_num 0 in
        let at_pos : pos < n.key_num → cmp key (n.keys pos) ≡ lt =
          λ h. let stop = s.at_stop (omega arith) in ground arith in
        record {
          le = omega (arith, s.most);
          before = λ j h.
              let passed = s.before j (omega arith) h in
              order.lt_of_gt key (n.keys j) (ground arith);
          after = λ j h k. elim (Bool-cases (pos == j)) [
            | inl here ↦ let e : pos ≡ j = ground arith in rw e at (at_pos (omega arith))
            | inr later ↦
                order.lt_trans key (n.keys pos) (n.keys j) (at_pos (omega arith))
                  (o.ascending pos j (ground arith) k)
          ];
        }

    -- A key that the leaf has is found.
    pub is_duplicate-HasEntry :
        (n : IndexNode) (key : Key)
        → is_duplicate cmp key n ≡ true
        → (rid : Rid) × HasEntry cmp n key rid
    unfolding is_duplicate
    is_duplicate-HasEntry n key dup =
        let pos = lower_position cmp key n in (n.rids pos, (pos, ground arith, ground arith, refl))

  module _ (n : IndexNode) (key : Key) (rid : Rid) (pos : ℕ) (place : IsPlace n key pos) where
    abbrev fuller : IndexNode
    fuller = insert_at pos key rid n

    pub insert_at-keys :
        (j : ℕ)
        → fuller.keys j ≡ (
            if j == pos
            then key
            else if ltb pos j && leb j n.key_num
            then n.keys (j - 1)
            else n.keys j)
    unfolding insert_at
    insert_at-keys j = put-shift_up n.keys pos n.key_num key j place.le

    pub insert_at-rids :
        (j : ℕ)
        → fuller.rids j ≡ (
            if j == pos
            then rid
            else if ltb pos j && leb j n.key_num
            then n.rids (j - 1)
            else n.rids j)
    unfolding insert_at
    insert_at-rids j = put-shift_up n.rids pos n.key_num rid j place.le

    pub insert_at-key_num : fuller.key_num ≡ n.key_num + 1
    unfolding insert_at
    insert_at-key_num = refl

    -- What an entry of the fuller leaf is.
    data Source (i : ℕ) : Type 0 where
      kept : i < pos → fuller.keys i ≡ n.keys i → fuller.rids i ≡ n.rids i → Source i
      placed : i ≡ pos → fuller.keys i ≡ key → fuller.rids i ≡ rid → Source i
      moved :
          (k : ℕ)
          → i ≡ k + 1
          → pos ≤ k
          → k < n.key_num
          → fuller.keys i ≡ n.keys k
          → fuller.rids i ≡ n.rids k
          → Source i

    source : (i : ℕ) → i < n.key_num + 1 → Source i
    source i h = elim (Bool-cases (i == pos)) [
      | inl here ↦
          placed (ground arith) (insert_at-keys i ∙ rw here refl) (insert_at-rids i ∙ rw here refl)
      | inr apart ↦ elim (Bool-cases (ltb i pos)) [
        | inl early ↦
            kept (ground arith) (insert_at-keys i ∙ ground arith) (insert_at-rids i ∙ ground arith)
        | inr late ↦
            let before : ltb pos i && leb i n.key_num ≡ true = ground arith in
            moved (i - 1) (ground arith) (ground arith) (ground (arith, place.le))
              (insert_at-keys i ∙ rw (apart, before) refl)
              (insert_at-rids i ∙ rw (apart, before) refl)
      ]
    ]

    ascends :
        (lo hi : Option Key) (i j : ℕ)
        → IsOrder cmp
        → IsOrdered cmp n lo hi
        → i < j
        → j < n.key_num + 1
        → Source i
        → Source j
        → cmp (fuller.keys i) (fuller.keys j) ≡ lt
    ascends lo hi i j order o h k (kept p e _) (kept q f _) =
        rw (e, f) (o.ascending i j h (omega (arith, place.le)))
    ascends lo hi i j order o h k (kept p e _) (placed q f _) = rw (e, f) (place.before i p)
    ascends lo hi i j order o h k (kept p e _) (moved m q m₁ m₂ f _) =
        rw (e, f) (order.lt_trans _ key _ (place.before i p) (place.after m m₁ m₂))
    ascends lo hi i j order o h k (placed p e _) (kept q f _) = absurd (omega arith)
    ascends lo hi i j order o h k (placed p e _) (placed q f _) = absurd (omega arith)
    ascends lo hi i j order o h k (placed p e _) (moved m q m₁ m₂ f _) =
        rw (e, f) (place.after m m₁ m₂)
    ascends lo hi i j order o h k (moved l p l₁ l₂ e _) (kept q f _) = absurd (omega arith)
    ascends lo hi i j order o h k (moved l p l₁ l₂ e _) (placed q f _) = absurd (omega arith)
    ascends lo hi i j order o h k (moved l p l₁ l₂ e _) (moved m q m₁ m₂ f _) =
        rw (e, f) (o.ascending l m (omega arith) m₂)

    -- What holds of the new key and of the keys of the leaf holds of the keys of the fuller one.
    keys_all :
        (P : Key → Type 0) (i : ℕ)
        → P key
        → ((j : ℕ) → j < n.key_num → P (n.keys j))
        → Source i
        → P (fuller.keys i)
    keys_all P i new old (kept p e _) = subst P (sym e) (old i (omega (arith, place.le)))
    keys_all P i new old (placed p e _) = subst P (sym e) new
    keys_all P i new old (moved k p _ q e _) = subst P (sym e) (old k q)

    pub insert_at-IsOrdered :
        (lo hi : Option Key)
        → IsOrder cmp
        → IsOrdered cmp n lo hi
        → AtLeast cmp lo key
        → Below cmp hi key
        → IsOrdered cmp fuller lo hi
    unfolding insert_at
    insert_at-IsOrdered lo hi order o a b = record {
      ascending = λ i j h k. ascends lo hi i j order o h k (source i (omega arith)) (source j k);
      at_least = λ i h. keys_all (AtLeast cmp lo) i a o.at_least (source i h);
      below = λ i h. keys_all (Below cmp hi) i b o.below (source i h);
    }

    entry_of :
        (k : Key) (r : Rid) (i : ℕ)
        → cmp k (fuller.keys i) ≡ eq
        → fuller.rids i ≡ r
        → Source i
        → HasEntry cmp n k r ⊎ ((cmp k key ≡ eq) × (rid ≡ r))
    entry_of k r i same here (kept p e f) =
        inl (i, omega (arith, place.le), rw e at same, sym f ∙ here)
    entry_of k r i same here (placed p e f) = inr (rw e at same, sym f ∙ here)
    entry_of k r i same here (moved j p _ q e f) = inl (j, q, rw e at same, sym f ∙ here)

    -- The leaf has the new entry and those that it had, and no others.
    pub HasEntry-insert_at :
        (k : Key) (r : Rid)
        → HasEntry cmp fuller k r
        → HasEntry cmp n k r ⊎ ((cmp k key ≡ eq) × (rid ≡ r))
    unfolding insert_at
    HasEntry-insert_at k r (i, inside, same, here) = entry_of k r i same here (source i inside)

    pub insert_at-HasEntry :
        (k : Key) (r : Rid)
        → HasEntry cmp n k r ⊎ ((cmp k key ≡ eq) × (rid ≡ r))
        → HasEntry cmp fuller k r
    unfolding insert_at
    insert_at-HasEntry k r (inr (same, here)) =
        let self : pos == pos ≡ true = ground arith in
        (
          pos,
          omega (arith, place.le),
          rw (insert_at-keys pos, self) same,
          insert_at-rids pos ∙ rw self here,
        )
    insert_at-HasEntry k r (inl (i, inside, same, here)) = elim (Bool-cases (ltb i pos)) [
      | inl early ↦
          let apart : i == pos ≡ false = ground arith in
          let behind : ltb pos i ≡ false = ground arith in
          (
            i,
            omega arith,
            rw (insert_at-keys i, apart, behind) same,
            insert_at-rids i ∙ rw (apart, behind) here,
          )
      | inr late ↦
          let apart : i + 1 == pos ≡ false = ground arith in
          let behind : ltb pos (i + 1) && leb (i + 1) n.key_num ≡ true = ground arith in
          let back : i + 1 - 1 ≡ i = omega arith in
          (
            i + 1,
            omega arith,
            rw (insert_at-keys (i + 1), apart, behind, back) same,
            insert_at-rids (i + 1) ∙ rw (apart, behind, back) here,
          )
    ]
