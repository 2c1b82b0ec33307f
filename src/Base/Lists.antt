-- ===== src/Base/Lists.antt =====
-- Lists measured and indexed by native numbers, under the library's names.
use Prim.Native.Nat.{ℕ, suc, ◌+◌}
use mathlib.Core.Path.{◌≡◌, refl}
use mathlib.Core.List.{List, [], ◌∷◌, ◌++◌}
use mathlib.Core.Bool.{Bool, true, false}
use native.Mathlib.Omega.{arith}
use atangyldb.Base.Tests.{◌==◌, if◌then◌else◌}

module _ {ℓ} {A : Type ℓ} where
  abbrev pub length : List A → ℕ
  length [] = 0
  length (x ∷ xs) = suc (length xs)

  pub length-append : (xs ys : List A) → length (xs ++ ys) ≡ length xs + length ys
  length-append [] ys = omega arith
  length-append (x ∷ xs) ys = omega (arith, length-append xs ys)

-- Membership in a list of numbers, as a test.
unfoldable pub contains : ℕ → List ℕ → Bool
contains a [] = false
contains a (x ∷ xs) = if x == a then true else contains a xs

-- No number stands twice.
abbrev pub IsNodup : List ℕ → Type 0
IsNodup [] = Unit {0}
IsNodup (x ∷ xs) = (contains x xs ≡ false) × IsNodup xs

pub contains-snoc :
    (a b : ℕ) (xs : List ℕ) → contains a (xs ++ b ∷ []) ≡ (if b == a then true else contains a xs)
unfolding contains
contains-snoc a b [] = ground arith
contains-snoc a b (x ∷ xs) = ground (arith, contains-snoc a b xs)

pub IsNodup-snoc :
    (b : ℕ) (xs : List ℕ) → IsNodup xs → contains b xs ≡ false → IsNodup (xs ++ b ∷ [])
unfolding contains
IsNodup-snoc b [] u h = (refl, tt)
IsNodup-snoc b (x ∷ xs) u h = ground (arith, contains-snoc x b xs, IsNodup-snoc b xs u.1)
