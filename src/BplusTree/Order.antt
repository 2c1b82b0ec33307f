-- ===== src/BplusTree/Order.antt =====
-- An order, as the comparisons of bplus_tree.cpp give it, and ascending keys.
pub mod Keys
use Prim.Native.Nat.{Ordering}
use Prim.Native.Nat.Ordering.{lt, eq, gt}
use atangyldb.Base.{ℕ, ◌<◌, ◌≡◌}

pub record IsOrder {A : Type 0} (cmp : A → A → Ordering) : Type 0 where
  pub lt_of_gt : (a b : A) → cmp a b ≡ gt → cmp b a ≡ lt
  pub gt_of_lt : (a b : A) → cmp a b ≡ lt → cmp b a ≡ gt
  pub eq_sym : (a b : A) → cmp a b ≡ eq → cmp b a ≡ eq
  pub lt_trans : (a b c : A) → cmp a b ≡ lt → cmp b c ≡ lt → cmp a c ≡ lt
  pub eq_lt : (a b c : A) → cmp a b ≡ eq → cmp b c ≡ lt → cmp a c ≡ lt
  pub lt_eq : (a b c : A) → cmp a b ≡ lt → cmp b c ≡ eq → cmp a c ≡ lt
  pub eq_trans : (a b c : A) → cmp a b ≡ eq → cmp b c ≡ eq → cmp a c ≡ eq

-- The first `n` keys ascend.
abbrev pub IsAscending : {A : Type 0} → (A → A → Ordering) → (ℕ → A) → ℕ → Type 0
IsAscending cmp keys n = (i j : ℕ) → i < j → j < n → cmp (keys i) (keys j) ≡ lt
