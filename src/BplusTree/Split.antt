-- ===== src/BplusTree/Split.antt =====
-- A full leaf that is split, `insert_into_leaf_after_split` of bplus_tree.cpp.
pub mod Halves
pub mod Place
use Prim.Native.Nat.Ordering.{lt, eq, gt}
use atangyldb.Base.{
  ℕ, zero, suc, ◌+◌, ◌-◌, ◌/◌, ◌≤◌, ◌<◌, ◌≡◌, ◌≢◌, ◌⊎◌, ◌↔◌, refl, sym, ap, ◌∙◌, subst, inl, inr,
  true, false, not, ◌&&◌, Option, none, some, if◌then◌else◌, ◌==◌, ltb, leb, arith, Bool-cases,
}
use atangyldb.Trx.{Rid}
use atangyldb.BplusTree.{IndexNode, Key}
use atangyldb.BplusTree.Arrays.{put, spread, spread_lem, copy_run, copy_run_lem, Stops}
use atangyldb.BplusTree.Compare.{is_lt, is_gt, is_eq}
use atangyldb.BplusTree.Node.{
  Buffer, upper_position, gather, lower_leaf, upper_leaf, next_leaf, to_page, insert_at,
}
use atangyldb.BplusTree.Order.{IsOrder}
use atangyldb.BplusTree.Tree.{AtLeast, Below, IsOrdered, HasEntry, IsUpper, upper_position-IsUpper}
use atangyldb.BplusTree.Leaf.{IsPlace, put-shift_up, insert_at-IsOrdered}

module _ {A : Type 0} where
  -- The gap that the loop of a split leaves is where the loop of an insertion puts the element.
  pub put-spread :
      (fresh a : ℕ → A) (pos n : ℕ) (v : A) (j : ℕ)
      → pos ≤ n
      → j ≤ n
      → put (spread pos fresh 0 a 0 n) pos v j
        ≡ (if j == pos then v else if ltb pos j && leb j n then a (j - 1) else a j)
  unfolding put
  put-spread fresh a pos n v j h k = ground (arith, spread_lem pos fresh a 0 n j)

module _ (order : ℕ) (fresh : Buffer) (pos : ℕ) (key : Key) (rid : Rid) (n blank : IndexNode)
    (new_pn : ℕ) (le : pos ≤ n.key_num) (full : n.key_num + 1 ≡ order) (enough : 2 ≤ order) where
  abbrev pub all : Buffer
  all = gather fresh pos key rid n

  -- The leaf as it would be with the entry, if it had room.
  abbrev pub whole : IndexNode
  whole = insert_at pos key rid n

  abbrev pub low : IndexNode
  low = lower_leaf order new_pn all n

  abbrev pub high : IndexNode
  high = upper_leaf order all n blank

  pub all-keys : (j : ℕ) → j < order → all.keys j ≡ whole.keys j
  unfolding gather insert_at
  all-keys j h =
      put-spread fresh.keys n.keys pos n.key_num key j le (omega arith)
      ∙ sym (put-shift_up n.keys pos n.key_num key j le)

  all-rids : (j : ℕ) → j < order → all.rids j ≡ whole.rids j
  unfolding gather insert_at
  all-rids j h =
      put-spread fresh.rids n.rids pos n.key_num rid j le (omega arith)
      ∙ sym (put-shift_up n.rids pos n.key_num rid j le)

  pub low-keys : (j : ℕ) → j < order / 2 → low.keys j ≡ whole.keys j
  unfolding lower_leaf
  low-keys j h = ground (arith, copy_run_lem n.keys all.keys 0 (order / 2) 0 j, all-keys j)

  pub low-rids : (j : ℕ) → j < order / 2 → low.rids j ≡ whole.rids j
  unfolding lower_leaf put
  low-rids j h = ground (arith, copy_run_lem n.rids all.rids 0 (order / 2) 0 j, all-rids j)

  pub high-keys : (j : ℕ) → j < order - order / 2 → high.keys j ≡ whole.keys (order / 2 + j)
  unfolding upper_leaf
  high-keys j h = ground (
    arith,
    copy_run_lem blank.keys all.keys (order / 2) (order - order / 2) 0 j,
    all-keys (order / 2 + j),
  )

  pub high-rids : (j : ℕ) → j < order - order / 2 → high.rids j ≡ whole.rids (order / 2 + j)
  unfolding upper_leaf put
  high-rids j h = ground (
    arith,
    copy_run_lem blank.rids all.rids (order / 2) (order - order / 2) 0 j,
    all-rids (order / 2 + j),
  )

  pub low-next : next_leaf order low ≡ new_pn
  unfolding lower_leaf put
  low-next = ground arith

  pub high-next : next_leaf order high ≡ next_leaf order n
  unfolding upper_leaf put
  high-next = ground (arith, copy_run_lem n.rids all.rids 0 (order / 2) 0 (order - 1))

  pub low-key_num : low.key_num ≡ order / 2
  unfolding lower_leaf
  low-key_num = refl

  pub high-key_num : high.key_num ≡ order - order / 2
  unfolding upper_leaf
  high-key_num = refl

  pub whole-key_num : whole.key_num ≡ order
  unfolding insert_at
  whole-key_num = full
