-- ===== src/BplusTree/Arrays.antt =====
-- The loops of bplus_tree.cpp that move keys or record ids in and between arrays, one `memcpy` of an
-- element at a time, and the loops that look for a position. An array is a function of its index.
use atangyldb.Base.{
  Bool-cases, inl, inr, ℕ, zero, suc, ◌+◌, ◌-◌, ◌≤◌, ◌<◌, ◌≡◌, Bool, true, false, ◌&&◌,
  if◌then◌else◌, ◌==◌, ltb, leb, arith,
}

-- `for (; i < i + n; i++) if (test(i)) break;` with `n` rounds left; the result is the last `i`.
unfoldable pub scan_until : (ℕ → Bool) → ℕ → ℕ → ℕ
scan_until test zero i = i
scan_until test (suc n) i = if test i then i else scan_until test n (i + 1)

-- What such a loop ends at: the first index that passes, or the end.
pub record Stops (test : ℕ → Bool) (n i r : ℕ) : Type 0 where
  pub least : i ≤ r
  pub most : r ≤ i + n
  pub before : (j : ℕ) → i ≤ j → j < r → test j ≡ false
  pub at_stop : r < i + n → test r ≡ true

pub scan_until-Stops : (test : ℕ → Bool) (n i : ℕ) → Stops test n i (scan_until test n i)
unfolding scan_until
scan_until-Stops test zero i = record {
  least = omega arith;
  most = omega arith;
  before = λ j a b. absurd (omega arith);
  at_stop = λ h. absurd (omega arith);
}
scan_until-Stops test (suc n) i = elim (Bool-cases (test i)) [
  | inl e ↦ rw e (record {
    least = omega arith;
    most = omega arith;
    before = λ j a b. absurd (omega arith);
    at_stop = λ h. e;
  })
  | inr e ↦
      let more = scan_until-Stops test n (i + 1) in
      rw e (record {
        least = omega (arith, more.least);
        most = omega (arith, more.most);
        before = λ j a b. elim (Bool-cases (i == j)) [
          | inl same ↦ let k : i ≡ j = ground arith in rw (← k) e
          | inr other ↦ more.before j (ground arith) b
        ];
        at_stop = λ h. more.at_stop (omega arith);
      })
]

module _ {A : Type 0} where
  -- `a[i] = v`
  unfoldable pub put : (ℕ → A) → ℕ → A → ℕ → A
  put a i v j = if i == j then v else a j

  -- `for (i = pos + n; i > pos; i--) a[i] = a[i - 1];`
  unfoldable pub shift_up : (ℕ → A) → ℕ → ℕ → ℕ → A
  shift_up a pos zero = a
  shift_up a pos (suc n) = shift_up (put a (pos + suc n) (a (pos + n))) pos n

  -- `for (i = from; i < from + n; i++) a[i] = a[i + 1];`
  unfoldable pub shift_down : (ℕ → A) → ℕ → ℕ → ℕ → A
  shift_down a from zero = a
  shift_down a from (suc n) = shift_down (put a from (a (from + 1))) (from + 1) n

  -- `for (; n > 0; i++, j++, n--) target[j] = source[i];`
  unfoldable pub copy_run : (ℕ → A) → ℕ → (ℕ → A) → ℕ → ℕ → ℕ → A
  copy_run target j source i zero = target
  copy_run target j source i (suc n) = copy_run (put target j (source i)) (j + 1) source (i + 1) n

  -- `for (; n > 0; i++, j++, n--) { if (j == gap) j++; target[j] = source[i]; }`
  unfoldable pub spread : ℕ → (ℕ → A) → ℕ → (ℕ → A) → ℕ → ℕ → ℕ → A
  spread gap target j source i zero = target
  spread gap target j source i (suc n) =
      let j' = if j == gap then j + 1 else j in
      spread gap (put target j' (source i)) (j' + 1) source (i + 1) n

  pub shift_up_lem :
      (a : ℕ → A) (pos n j : ℕ)
      → shift_up a pos n j ≡ (if ltb pos j && leb j (pos + n) then a (j - 1) else a j)
  unfolding shift_up put
  shift_up_lem a pos zero j = ground arith
  shift_up_lem a pos (suc n) j =
      ground (arith, shift_up_lem (put a (pos + suc n) (a (pos + n))) pos n j)

  pub shift_down_lem :
      (a : ℕ → A) (from n j : ℕ)
      → shift_down a from n j ≡ (if leb from j && ltb j (from + n) then a (j + 1) else a j)
  unfolding shift_down put
  shift_down_lem a from zero j = ground arith
  shift_down_lem a from (suc n) j =
      ground (arith, shift_down_lem (put a from (a (from + 1))) (from + 1) n j)

  pub copy_run_lem :
      (target source : ℕ → A) (i n k j : ℕ)
      → copy_run target k source i n j
        ≡ (if leb k j && ltb j (k + n) then source (i + (j - k)) else target j)
  unfolding copy_run put
  copy_run_lem target source i zero k j = ground arith
  copy_run_lem target source i (suc n) k j =
      ground (arith, copy_run_lem (put target k (source i)) source (i + 1) n (k + 1) j)

  spread_after :
      (gap : ℕ) (target source : ℕ → A) (i n j : ℕ)
      → gap < i + 1
      → spread gap target (i + 1) source i n j
        ≡ (if leb (i + 1) j && leb j (i + n) then source (j - 1) else target j)
  unfolding spread put
  spread_after gap target source i zero j h = ground arith
  spread_after gap target source i (suc n) j h =
      ground (arith, spread_after gap (put target (i + 1) (source i)) source (i + 1) n j)

  -- The elements below the gap keep their place, the others move up by one.
  pub spread_lem :
      (gap : ℕ) (target source : ℕ → A) (i n j : ℕ)
      → i ≤ gap
      → gap ≤ i + n
      → spread gap target i source i n j ≡ (
          if leb i j && ltb j gap
          then source j
          else if ltb gap j && leb j (i + n)
          then source (j - 1)
          else target j)
  unfolding spread put
  spread_lem gap target source i zero j h k = ground arith
  spread_lem gap target source i (suc n) j h k = elim (Bool-cases (i == gap)) [
    | inl e ↦
        rw e (ground (arith, spread_after gap (put target (i + 1) (source i)) source (i + 1) n j))
    | inr e ↦ rw e (ground (arith, spread_lem gap (put target i (source i)) source (i + 1) n j))
  ]
