-- ===== src/Base/First.antt =====
-- What a search for the first number with a property promises, as an `Option`: `none` is the -1
-- of the source's index searches.
use Prim.Native.Nat.{ℕ, ◌≤◌, ◌<◌}
use mathlib.Core.Path.{◌≡◌}
use mathlib.Core.Bool.{Bool, true, false}
use mathlib.Core.Option.{Option, none, some}
use native.Mathlib.Omega.{arith}
use atangyldb.Base.Tests.{Bool-cases, ltb, leb, if◌then◌else◌}
use mathlib.Core.Logic.{inl, inr}

-- No number from `lo` up to `hi` passes the test.
abbrev pub NoneIn : (ℕ → Bool) → ℕ → ℕ → Type 0
NoneIn p lo hi = (j : ℕ) → lo ≤ j → j < hi → p j ≡ false

-- The least number in the range that passes, or `none` if none does.
abbrev pub First : (ℕ → Bool) → ℕ → ℕ → Option ℕ → Type 0
First p lo hi none = NoneIn p lo hi
First p lo hi (some k) = (lo ≤ k) × (k < hi) × (p k ≡ true) × NoneIn p lo k

pub First-extend :
    (p : ℕ → Bool) (lo mid hi : ℕ) (r : Option ℕ)
    → lo ≤ mid
    → NoneIn p lo mid
    → First p mid hi r
    → First p lo hi r
First-extend p lo mid hi none le before h = λ j a b. elim (Bool-cases (ltb j mid)) [
  | inl e ↦ before j a (ground arith)
  | inr e ↦ h j (ground arith) b
]
First-extend p lo mid hi (some k) le before h = (
  omega arith,
  h.1,
  h.2,
  λ j a b. elim (Bool-cases (ltb j mid)) [
    | inl e ↦ before j a (ground arith)
    | inr e ↦ h.3 j (ground arith) b
  ],
)

-- Cutting the range at the top keeps a result that lies below, and drops one that does not.
pub First-cut :
    (p : ℕ → Bool) (lo hi size k : ℕ)
    → size ≤ hi
    → First p lo hi (some k)
    → First p lo size (if leb size k then none else some k)
First-cut p lo hi size k le h = elim (Bool-cases (leb size k)) [
  | inl e ↦ rw e (λ j a b. h.3 j a (ground arith))
  | inr e ↦ rw e (h.0, ground arith, h.2, h.3)
]
