-- ===== src/BplusTree/Order/Keys.antt =====
-- The comparison of keys in bplus_tree.cpp as an order.
use Prim.Native.Nat.{Ordering}
use Prim.Native.Nat.Ordering.{lt, eq, gt}
use atangyldb.Base.{ℕ, zero, suc, refl, arith}
use atangyldb.Memory.{Bytes, offset, load_int}
use atangyldb.BplusTree.{
  AttrType, undefined_attr, chars, ints, dates, texts, floats, Key, FileHeader, Floats,
}
use atangyldb.BplusTree.Compare.{compare_int, strncmp, compare_rid, compare_key, cmp_key}
use atangyldb.BplusTree.Order.{IsOrder}

compare_int-IsOrder : IsOrder compare_int
unfolding compare_int
compare_int-IsOrder = record {
  lt_of_gt = λ a b h. ground arith;
  gt_of_lt = λ a b h. ground arith;
  eq_sym = λ a b h. ground arith;
  lt_trans = λ a b c h k. ground arith;
  eq_lt = λ a b c h k. ground arith;
  lt_eq = λ a b c h k. ground arith;
  eq_trans = λ a b c h k. ground arith;
}

-- One order decides, and a second one where it does not.
abbrev both : {A : Type 0} → (A → A → Ordering) → (A → A → Ordering) → A → A → Ordering
both first second a b = elim (first a b) [ lt ↦ lt | gt ↦ gt | eq ↦ second a b ]

both-IsOrder :
    {A : Type 0} (first second : A → A → Ordering)
    → IsOrder first
    → IsOrder second
    → IsOrder (both first second)
both-IsOrder f s o p = record {
  lt_of_gt = λ a b h. ground (arith, o.lt_of_gt a b, o.eq_sym a b, p.lt_of_gt a b);
  gt_of_lt = λ a b h. ground (arith, o.gt_of_lt a b, o.eq_sym a b, p.gt_of_lt a b);
  eq_sym = λ a b h. ground (arith, o.eq_sym a b, p.eq_sym a b);
  lt_trans = λ a b c h k.
      ground
        (arith, o.lt_trans a b c, o.eq_lt a b c, o.lt_eq a b c, o.eq_trans a b c, p.lt_trans a b c);
  eq_lt = λ a b c h k. ground (arith, o.eq_lt a b c, o.eq_trans a b c, p.eq_lt a b c);
  lt_eq = λ a b c h k. ground (arith, o.lt_eq a b c, o.eq_trans a b c, p.lt_eq a b c);
  eq_trans = λ a b c h k. ground (arith, o.eq_trans a b c, p.eq_trans a b c);
}

-- An order on values that are read off by `f`.
on-IsOrder :
    {A B : Type 0} (f : A → B) (cmp : B → B → Ordering)
    → IsOrder cmp
    → IsOrder (λ a b. cmp (f a) (f b))
on-IsOrder f cmp o = record {
  lt_of_gt = λ a b. o.lt_of_gt (f a) (f b);
  gt_of_lt = λ a b. o.gt_of_lt (f a) (f b);
  eq_sym = λ a b. o.eq_sym (f a) (f b);
  lt_trans = λ a b c. o.lt_trans (f a) (f b) (f c);
  eq_lt = λ a b c. o.eq_lt (f a) (f b) (f c);
  lt_eq = λ a b c. o.lt_eq (f a) (f b) (f c);
  eq_trans = λ a b c. o.eq_trans (f a) (f b) (f c);
}

compare_rid-IsOrder : IsOrder compare_rid
unfolding compare_rid
compare_rid-IsOrder =
    both-IsOrder (λ a b. compare_int a.page_num b.page_num)
      (λ a b. compare_int a.slot_num b.slot_num)
      (on-IsOrder (λ r. r.page_num) compare_int compare_int-IsOrder)
      (on-IsOrder (λ r. r.slot_num) compare_int compare_int-IsOrder)

strncmp-IsOrder : (n : ℕ) → IsOrder (λ a b. strncmp a b n)
unfolding strncmp
strncmp-IsOrder zero = record {
  lt_of_gt = λ a b h. ground arith;
  gt_of_lt = λ a b h. ground arith;
  eq_sym = λ a b h. refl;
  lt_trans = λ a b c h k. h;
  eq_lt = λ a b c h k. k;
  lt_eq = λ a b c h k. h;
  eq_trans = λ a b c h k. refl;
}
strncmp-IsOrder (suc n) =
    let o = strncmp-IsOrder n in
    record {
      lt_of_gt = λ a b h. ground (arith, o.lt_of_gt (offset a 1) (offset b 1));
      gt_of_lt = λ a b h. ground (arith, o.gt_of_lt (offset a 1) (offset b 1));
      eq_sym = λ a b h. ground (arith, o.eq_sym (offset a 1) (offset b 1));
      lt_trans = λ a b c h k. ground (arith, o.lt_trans (offset a 1) (offset b 1) (offset c 1));
      eq_lt = λ a b c h k. ground (arith, o.eq_lt (offset a 1) (offset b 1) (offset c 1));
      lt_eq = λ a b c h k. ground (arith, o.lt_eq (offset a 1) (offset b 1) (offset c 1));
      eq_trans = λ a b c h k. ground (arith, o.eq_trans (offset a 1) (offset b 1) (offset c 1));
    }

-- The types whose values are compared exactly.
abbrev pub IsExact : AttrType → Type 0
IsExact chars = Unit
IsExact ints = Unit
IsExact dates = Unit
IsExact type = ⊥

module _ (fl : Floats) where
  compare_key-IsOrder :
      (type : AttrType) (length : ℕ) → IsExact type → IsOrder (compare_key fl type length)
  unfolding compare_key
  compare_key-IsOrder chars length exact = strncmp-IsOrder length
  compare_key-IsOrder dates length exact = strncmp-IsOrder length
  compare_key-IsOrder ints length exact =
      on-IsOrder (λ (a : Bytes). load_int a 0) compare_int compare_int-IsOrder
  compare_key-IsOrder undefined_attr length exact = absurd exact
  compare_key-IsOrder texts length exact = absurd exact
  compare_key-IsOrder floats length exact = absurd exact

  pub cmp_key-IsOrder : (h : FileHeader) → IsExact h.attr_type → IsOrder (cmp_key fl h)
  unfolding cmp_key
  cmp_key-IsOrder h exact =
      both-IsOrder (λ a b. compare_key fl h.attr_type h.attr_length a.attr b.attr)
        (λ a b. compare_rid a.rid b.rid)
        (on-IsOrder (λ (k : Key). k.attr) (compare_key fl h.attr_type h.attr_length)
          (compare_key-IsOrder h.attr_type h.attr_length exact))
        (on-IsOrder (λ (k : Key). k.rid) compare_rid compare_rid-IsOrder)
