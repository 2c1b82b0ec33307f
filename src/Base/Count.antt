-- ===== src/Base/Count.antt =====
-- How many numbers below a bound pass a test.
use Prim.Native.Nat.{ℕ, zero, suc, ◌+◌, ◌≤◌, ◌<◌}
use mathlib.Core.Path.{◌≡◌, refl}
use mathlib.Core.Bool.{Bool, true, false, not}
use native.Mathlib.Omega.{arith}
use atangyldb.Base.Tests.{◌==◌, if◌then◌else◌, Bool-cases}
use mathlib.Core.Logic.{inl, inr}
use atangyldb.Base.First.{NoneIn}

unfoldable pub count_below : ℕ → (ℕ → Bool) → ℕ
count_below zero p = 0
count_below (suc n) p = count_below n p + (if p n then 1 else 0)

pub count_below-le : (n : ℕ) (p : ℕ → Bool) → count_below n p ≤ n
unfolding count_below
count_below-le zero p = omega arith
count_below-le (suc n) p = ground (arith, count_below-le n p)

pub count_below-congr :
    (n : ℕ) (p q : ℕ → Bool) → ((i : ℕ) → i < n → p i ≡ q i) → count_below n p ≡ count_below n q
unfolding count_below
count_below-congr zero p q h = refl
count_below-congr (suc n) p q h =
    ground (arith, h n (omega arith), count_below-congr n p q (λ i lt. h i (omega arith)))

-- Turning one test on adds one, turning one off takes one away.
pub count_below-raise :
    (n : ℕ) (p q : ℕ → Bool) (k : ℕ)
    → k < n
    → p k ≡ false
    → ((i : ℕ) → i < n → q i ≡ (if k == i then true else p i))
    → count_below n q ≡ count_below n p + 1
unfolding count_below
count_below-raise zero p q k lt e h = absurd (omega arith)
count_below-raise (suc n) p q k lt e h = elim (Bool-cases (k == n)) [
  | inl here ↦
      ground (
        arith,
        h n (omega arith),
        count_below-congr n q p (λ i l. ground (arith, h i (omega arith))),
      )
  | inr other ↦ ground (
    arith,
    h n (omega arith),
    count_below-raise n p q k (ground arith) e (λ i l. h i (omega arith)),
  )
]

pub count_below-drop :
    (n : ℕ) (p q : ℕ → Bool) (k : ℕ)
    → k < n
    → p k ≡ true
    → ((i : ℕ) → i < n → q i ≡ (if k == i then false else p i))
    → count_below n q + 1 ≡ count_below n p
unfolding count_below
count_below-drop zero p q k lt e h = absurd (omega arith)
count_below-drop (suc n) p q k lt e h = elim (Bool-cases (k == n)) [
  | inl here ↦
      ground (
        arith,
        h n (omega arith),
        count_below-congr n q p (λ i l. ground (arith, h i (omega arith))),
      )
  | inr other ↦ ground (
    arith,
    h n (omega arith),
    count_below-drop n p q k (ground arith) e (λ i l. h i (omega arith)),
  )
]

pub count_below-none : (n : ℕ) (p : ℕ → Bool) → NoneIn p 0 n → count_below n p ≡ 0
unfolding count_below
count_below-none zero p h = refl
count_below-none (suc n) p h =
    ground
      (arith, h n (omega arith) (omega arith), count_below-none n p (λ j a b. h j a (omega arith)))

pub count_below-full : (n : ℕ) (p : ℕ → Bool) → NoneIn (λ i. not (p i)) 0 n → count_below n p ≡ n
unfolding count_below
count_below-full zero p h = refl
count_below-full (suc n) p h =
    ground
      (arith, h n (omega arith) (omega arith), count_below-full n p (λ j a b. h j a (omega arith)))
