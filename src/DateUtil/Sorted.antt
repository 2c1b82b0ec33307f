-- ===== src/DateUtil/Sorted.antt =====
-- The order of the strings that `Check_and_format_date` of meta_util.cpp leaves.
use mathlib.Core.Path.{fun_ext}
use Prim.Native.Nat.{compare, Ordering}
use Prim.Native.Nat.Ordering.{eq}
use atangyldb.Base.{
  ℕ, suc, ◌+◌, ◌*◌, ◌-◌, ◌≤◌, ◌<◌, ◌≡◌, ◌≢◌, refl, sym, ap, ◌∙◌, subst, inl, inr, ◌==◌, arith,
  Bool-cases,
}
use atangyldb.Memory.{Bytes, offset}
use atangyldb.BplusTree.Compare.{strncmp}
use atangyldb.DateUtil.{format_date}

-- A character that is equal, and one that is not.
strncmp_same :
    (a b : Bytes) (n : ℕ)
    → a 0 ≡ b 0
    → a 0 ≢ 0
    → strncmp a b (suc n) ≡ strncmp (offset a 1) (offset b 1) n
unfolding strncmp
strncmp_same a b n h k = ground arith

strncmp_differs : (a b : Bytes) (n : ℕ) → a 0 ≢ b 0 → strncmp a b (suc n) ≡ compare (a 0) (b 0)
unfolding strncmp
strncmp_differs a b n h = ground arith

by_character :
    (a b : Bytes) (n : ℕ) (o : Ordering)
    → a 0 ≢ 0
    → (a 0 ≡ b 0 → strncmp (offset a 1) (offset b 1) n ≡ o)
    → (a 0 ≢ b 0 → compare (a 0) (b 0) ≡ o)
    → strncmp a b (suc n) ≡ o
by_character a b n o z same differ = elim (Bool-cases (a 0 == b 0)) [
  | inl e ↦ let e' : a 0 ≡ b 0 = ground arith in strncmp_same a b n e' z ∙ same e'
  | inr e ↦ let e' : a 0 ≢ b 0 = ground arith in strncmp_differs a b n e' ∙ differ e'
]

strncmp_end : (a b : Bytes) (n : ℕ) → a 0 ≡ 0 → b 0 ≡ 0 → strncmp a b (suc n) ≡ eq
unfolding strncmp
strncmp_end a b n h k = ground arith

offset_zero : (s : Bytes) → offset s 0 ≡ s
unfolding offset
offset_zero s = fun_ext λ i. let e : 0 + i ≡ i = omega arith in ap s e

-- The number whose decimal digits are those of the date.
abbrev pub date_number : ℕ → ℕ → ℕ → ℕ
date_number y m d = y * 10000 + m * 100 + d

module _ (y m d y' m' d' : ℕ) (s s' : Bytes) (year : y < 10000) (year' : y' < 10000)
    (month : m < 100) (month' : m' < 100) (day : d < 100) (day' : d' < 100) where
  abbrev a : ℕ → Bytes
  a i = offset (format_date y m d s) i

  abbrev b : ℕ → Bytes
  b i = offset (format_date y' m' d' s') i

  abbrev o : Ordering
  o = compare (date_number y m d) (date_number y' m' d')

  days : (n : ℕ) → y ≡ y' → m ≡ m' → strncmp (a 8) (b 8) (suc (suc (suc n))) ≡ o
  unfolding format_date offset strncmp
  days n ye me =
      by_character (a 8) (b 8) (suc (suc n)) o (ground arith)
        (λ e.
          by_character (a 9) (b 9) (suc n) o (ground arith)
            (λ f. strncmp_end (a 10) (b 10) n refl refl ∙ ground arith) (λ f. ground arith))
        (λ e. ground arith)

  months : (n : ℕ) → y ≡ y' → strncmp (a 5) (b 5) (suc (suc (suc (suc (suc (suc n)))))) ≡ o
  unfolding format_date offset strncmp
  months n ye =
      by_character (a 5) (b 5) (suc (suc (suc (suc (suc n))))) o (ground arith)
        (λ e.
          by_character (a 6) (b 6) (suc (suc (suc (suc n)))) o (ground arith)
            (λ f.
              by_character (a 7) (b 7) (suc (suc (suc n))) o (ground arith)
                (λ g. days n ye (ground arith)) (λ g. absurd (g refl)))
            (λ f. ground arith))
        (λ e. ground arith)

  years :
      (n : ℕ)
      → strncmp (a 0) (b 0) (suc (suc (suc (suc (suc (suc (suc (suc (suc (suc (suc n))))))))))) ≡ o
  unfolding format_date offset strncmp
  years n =
      by_character (a 0) (b 0) (suc (suc (suc (suc (suc (suc (suc (suc (suc (suc n)))))))))) o
        (ground arith)
        (λ e.
          by_character (a 1) (b 1) (suc (suc (suc (suc (suc (suc (suc (suc (suc n))))))))) o
            (ground arith)
            (λ f.
              by_character (a 2) (b 2) (suc (suc (suc (suc (suc (suc (suc (suc n)))))))) o
                (ground arith)
                (λ g.
                  by_character (a 3) (b 3) (suc (suc (suc (suc (suc (suc (suc n))))))) o
                    (ground arith)
                    (λ h.
                      by_character (a 4) (b 4) (suc (suc (suc (suc (suc (suc n)))))) o
                        (ground arith) (λ i. months n (ground arith)) (λ i. absurd (i refl)))
                    (λ h. ground arith))
                (λ g. ground arith))
            (λ f. ground arith))
        (λ e. ground arith)

  -- The strings of two dates, with years below 10000, and months and days below 100, compare as the dates
  -- do, over eleven characters or more: by the year, then the month, then the day, whatever follows
  -- them in memory.
  pub format_date-orders :
      (n : ℕ)
      → 11 ≤ n
      → strncmp (format_date y m d s) (format_date y' m' d' s') n
        ≡ compare (date_number y m d) (date_number y' m' d')
  format_date-orders n h =
      let k : ℕ = n - 11 in
      let size : suc (suc (suc (suc (suc (suc (suc (suc (suc (suc (suc k)))))))))) ≡ n =
        omega arith in
      rw (sym (offset_zero (format_date y m d s)), sym (offset_zero (format_date y' m' d' s')))
        (subst (λ l. strncmp (a 0) (b 0) l ≡ o) size (years k))
