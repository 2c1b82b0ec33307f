-- ===== src/BplusTree/Tree.antt =====
-- The tree that the pages of an index make up: what each page may hold, and which entries it has.
pub mod Replace
pub mod Onward
pub mod Way
use Prim.Native.Nat.{Ordering}
use Prim.Native.Nat.Ordering.{lt, eq}
use atangyldb.Base.{
  ℕ, zero, suc, ◌-◌, ◌≤◌, ◌<◌, ◌≡◌, ◌≢◌, ◌⊎◌, inl, inr, true, false, Option, none, some,
  if◌then◌else◌, ◌==◌, ltb, arith, Bool-cases,
}
use atangyldb.Trx.{Rid}
use atangyldb.BplusTree.{IndexPage, IndexNode, Key}
use atangyldb.BplusTree.Arrays.{Stops, scan_until-Stops}
use atangyldb.BplusTree.Compare.{is_lt}
use atangyldb.BplusTree.Node.{upper_position}
use atangyldb.BplusTree.Order.{IsOrder, IsAscending}

-- The page of a child.
abbrev pub child : IndexNode → ℕ → ℕ
child n i = (n.rids i).page_num

-- The page `q` belongs to the tree under the page `pn`.
abbrev pub Within : (ℕ → Option IndexPage) → ℕ → ℕ → ℕ → Type 0
Within pages zero pn q = q ≡ pn
Within pages (suc level) pn q =
    (q ≡ pn)
    ⊎ ((page : IndexPage) × (pages pn ≡ some page)
        × ((i : ℕ) × (i ≤ page.node.key_num) × Within pages level (child page.node i) q))

-- No page belongs to two children of the node on the page `pn`, and `pn` to none.
pub record IsSeparate (pages : ℕ → Option IndexPage) (level pn : ℕ) (n : IndexNode) : Type 0 where
  pub apart :
      (i j q : ℕ)
      → i ≤ n.key_num
      → j ≤ n.key_num
      → i ≢ j
      → Within pages level (child n i) q
      → ¬ Within pages level (child n j) q
  pub below_top : (i q : ℕ) → i ≤ n.key_num → Within pages level (child n i) q → q ≢ pn

module _ (cmp : Key → Key → Ordering) where
  -- `key` is in the range from `lo`, which is in it, to `hi`, which is not; `none` is no bound.
  abbrev pub AtLeast : Option Key → Key → Type 0
  AtLeast none key = Unit
  AtLeast (some lo) key = is_lt (cmp key lo) ≡ false

  abbrev pub Below : Option Key → Key → Type 0
  Below none key = Unit
  Below (some hi) key = cmp key hi ≡ lt

  -- The range of the `i`th child.
  abbrev pub lower_bound : IndexNode → Option Key → ℕ → Option Key
  lower_bound n lo i = if i == 0 then lo else some (n.keys (i - 1))

  abbrev pub upper_bound : IndexNode → Option Key → ℕ → Option Key
  upper_bound n hi i = if ltb i n.key_num then some (n.keys i) else hi

  -- The keys of a node ascend, and are in its range.
  pub record IsOrdered (n : IndexNode) (lo hi : Option Key) : Type 0 where
    pub ascending : IsAscending cmp n.keys n.key_num
    pub at_least : (i : ℕ) → i < n.key_num → AtLeast lo (n.keys i)
    pub below : (i : ℕ) → i < n.key_num → Below hi (n.keys i)

  -- The pages `pages` have a tree with `level` levels of inner nodes under the page `pn`, for keys in
  -- the range, with parents as the nodes say.
  abbrev pub IsTree : (ℕ → Option IndexPage) → ℕ → ℕ → Option ℕ → Option Key → Option Key → Type 0
  IsTree pages zero pn parent lo hi =
      (page : IndexPage) × (pages pn ≡ some page)
      × (page.node.is_leaf ≡ true)
      × (page.node.parent ≡ parent)
      × IsOrdered page.node lo hi
  IsTree pages (suc level) pn parent lo hi =
      (page : IndexPage) × (pages pn ≡ some page)
      × (page.node.is_leaf ≡ false)
      × (page.node.parent ≡ parent)
      × IsOrdered page.node lo hi
      × IsSeparate pages level pn page.node
      × ((i : ℕ)
          → i ≤ page.node.key_num
          → IsTree pages level (child page.node i) (some pn) (lower_bound page.node lo i)
              (upper_bound page.node hi i))

  -- The leaf `n` has an entry with the key and the record id.
  abbrev pub HasEntry : IndexNode → Key → Rid → Type 0
  HasEntry n key rid = (i : ℕ) × (i < n.key_num) × (cmp key (n.keys i) ≡ eq) × (n.rids i ≡ rid)

  -- A leaf of the tree under the page `pn` has the entry.
  abbrev pub Stored : (ℕ → Option IndexPage) → ℕ → ℕ → Key → Rid → Type 0
  Stored pages zero pn key rid =
      (page : IndexPage) × (pages pn ≡ some page) × HasEntry page.node key rid
  Stored pages (suc level) pn key rid =
      (page : IndexPage) × (pages pn ≡ some page)
      × ((i : ℕ) × (i ≤ page.node.key_num) × Stored pages level (child page.node i) key rid)

  -- The way down to the leaf on the page `leaf`, with its parent and its range.
  abbrev pub WayDown :
      (ℕ → Option IndexPage)
      → ℕ
      → ℕ
      → Option ℕ
      → Option Key
      → Option Key
      → ℕ
      → Option ℕ
      → Option Key
      → Option Key
      → Type 0
  WayDown pages zero pn parent lo hi leaf parent' lo' hi' =
      (leaf ≡ pn) × (parent' ≡ parent) × (lo' ≡ lo) × (hi' ≡ hi)
  WayDown pages (suc level) pn parent lo hi leaf parent' lo' hi' =
      (page : IndexPage) × (pages pn ≡ some page)
      × ((i : ℕ) × (i ≤ page.node.key_num)
          × WayDown pages level (child page.node i) (some pn) (lower_bound page.node lo i)
              (upper_bound page.node hi i) leaf parent' lo' hi')

  -- The position that `find_leaf` takes.
  abbrev pub IsUpper : Key → IndexNode → ℕ → Type 0
  IsUpper key n pos = Stops (λ i. is_lt (cmp key (n.keys i))) n.key_num 0 pos

  pub upper_position-IsUpper :
      (key : Key) (n : IndexNode) → IsUpper key n (upper_position cmp key n)
  unfolding upper_position
  upper_position-IsUpper key n = scan_until-Stops (λ i. is_lt (cmp key (n.keys i))) n.key_num 0

  -- The child at that position has the key in its range.
  pub upper-AtLeast :
      (key : Key) (n : IndexNode) (lo : Option Key) (pos : ℕ)
      → IsUpper key n pos
      → AtLeast lo key
      → AtLeast (lower_bound n lo pos) key
  upper-AtLeast key n lo pos s h = elim (Bool-cases (pos == 0)) [
    | inl e ↦ rw e h
    | inr e ↦ rw e (s.before (pos - 1) (omega arith) (ground arith))
  ]

  pub upper-Below :
      (key : Key) (n : IndexNode) (hi : Option Key) (pos : ℕ)
      → IsUpper key n pos
      → Below hi key
      → Below (upper_bound n hi pos) key
  upper-Below key n hi pos s h = elim (Bool-cases (ltb pos n.key_num)) [
    | inl e ↦ let less = s.at_stop (ground arith) in rw e (ground arith)
    | inr e ↦ rw e h
  ]

  module _ (order : IsOrder cmp) where
    pub AtLeast-eq :
        (lo : Option Key) (key k : Key) → cmp key k ≡ eq → AtLeast lo k → AtLeast lo key
    AtLeast-eq none key k e h = tt
    AtLeast-eq (some lo) key k e h = ground (arith, order.eq_sym key k, order.eq_lt k key lo)

    pub Below-eq : (hi : Option Key) (key k : Key) → cmp key k ≡ eq → Below hi k → Below hi key
    Below-eq none key k e h = tt
    Below-eq (some hi) key k e h = order.eq_lt key k hi e h

    pub AtLeast-trans :
        (lo : Option Key) (key k : Key) → is_lt (cmp key k) ≡ false → AtLeast lo k → AtLeast lo key
    AtLeast-trans none key k e h = tt
    AtLeast-trans (some lo) key k e h = ground (
      arith,
      order.lt_of_gt key k,
      order.lt_trans k key lo,
      order.eq_sym key k,
      order.eq_lt k key lo,
    )

    pub Below-trans : (hi : Option Key) (key k : Key) → cmp key k ≡ lt → Below hi k → Below hi key
    Below-trans none key k e h = tt
    Below-trans (some hi) key k e h = order.lt_trans key k hi e h

    -- A child has only keys of its range, which is within that of its node.
    pub widen :
        (n : IndexNode) (lo hi : Option Key) (i : ℕ) (key : Key)
        → IsOrdered n lo hi
        → i ≤ n.key_num
        → AtLeast (lower_bound n lo i) key
        → Below (upper_bound n hi i) key
        → AtLeast lo key × Below hi key
    widen n lo hi i key o le a b = (
      elim (Bool-cases (i == 0)) [
        | inl e ↦ rw e at a
        | inr e ↦
            AtLeast-trans lo key (n.keys (i - 1)) (rw e at a) (o.at_least (i - 1) (ground arith))
      ],
      elim (Bool-cases (ltb i n.key_num)) [
        | inl e ↦ Below-trans hi key (n.keys i) (rw e at b) (o.below i (ground arith))
        | inr e ↦ rw e at b
      ],
    )

    pub Stored-range :
        (pages : ℕ → Option IndexPage) (level pn : ℕ) (parent : Option ℕ) (lo hi : Option Key)
        (key : Key) (rid : Rid)
        → IsTree pages level pn parent lo hi
        → Stored pages level pn key rid
        → AtLeast lo key × Below hi key
    Stored-range pages zero pn parent lo hi key rid (page, here, is_leaf, _, o)
          (page', here', (i, inside, same, r)) =
        let e : page' ≡ page = ground (arith, here, here') in
        let lt' : i < page.node.key_num = rw e at inside in
        let same' : cmp key (page.node.keys i) ≡ eq = rw e at same in
        (
          AtLeast-eq lo key (page.node.keys i) same' (o.at_least i lt'),
          Below-eq hi key (page.node.keys i) same' (o.below i lt'),
        )
    Stored-range pages (suc level) pn parent lo hi key rid (page, here, inner, _, o, _, trees)
          (page', here', (i, le, stored)) =
        let e : page' ≡ page = ground (arith, here, here') in
        let le' : i ≤ page.node.key_num = rw e at le in
        let stored' : Stored pages level (child page.node i) key rid = rw e at stored in
        let r =
          Stored-range pages level (child page.node i) (some pn) (lower_bound page.node lo i)
            (upper_bound page.node hi i) key rid (trees i le') stored' in
        widen page.node lo hi i key o le' r.0 r.1

    -- No other child has it.
    pub upper_unique :
        (n : IndexNode) (lo hi : Option Key) (i pos : ℕ) (key : Key)
        → IsOrdered n lo hi
        → IsUpper key n pos
        → i ≤ n.key_num
        → AtLeast (lower_bound n lo i) key
        → Below (upper_bound n hi i) key
        → i ≡ pos
    upper_unique n lo hi i pos key o s le a b = elim (Bool-cases (ltb i pos)) [
      | inl early ↦
          let inside : ltb i n.key_num ≡ true = ground (arith, s.most) in
          let less : cmp key (n.keys i) ≡ lt = rw inside at b in
          let not_less = s.before i (omega arith) (ground arith) in absurd (ground arith)
      | inr not_early ↦ elim (Bool-cases (ltb pos i)) [
        | inr not_late ↦ ground arith
        | inl late ↦
            let later : (i == 0) ≡ false = ground arith in
            let not_less : is_lt (cmp key (n.keys (i - 1))) ≡ false = rw later at a in
            let less = s.at_stop (ground arith) in
            elim (Bool-cases (pos == i - 1)) [
              | inl same ↦
                  let e : pos ≡ i - 1 = ground arith in
                  let less' : is_lt (cmp key (n.keys (i - 1))) ≡ true = rw e at less in absurd (cc)
              | inr apart ↦
                  let up = o.ascending pos (i - 1) (ground arith) (ground arith) in
                  let chain = order.lt_trans key (n.keys pos) (n.keys (i - 1)) in
                  absurd (ground (arith, chain))
            ]
      ]
    ]
