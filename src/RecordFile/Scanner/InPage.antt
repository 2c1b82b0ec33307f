-- ===== src/RecordFile/Scanner/InPage.antt =====
-- The rounds of `RecordFileScanner::get_next_record` on one page, record_manager.cpp.
use atangyldb.Base.{
  ℕ, zero, suc, ◌+◌, ◌≤◌, ◌≡◌, refl, Bool, true, false, ◌&&◌, Option, none, some, arith, ltb,
  Bool-cases, inl, inr,
}
use atangyldb.Base.First.{First, NoneIn, First-extend}
use atangyldb.Memory.{Bytes, offset}
use atangyldb.RecordPage.{next, following, record_capacity, record_offset}
use atangyldb.RecordPage.Content.{occupied}
use atangyldb.RecordPage.Read.{IsSettled, found_or_eof, next-First}
use atangyldb.RecordFile.Scanner.{passes, next_in_page}

-- A slot that holds a record that the filter accepts.
abbrev pub wanted : Option (Bytes → Bool) → Bytes → ℕ → Bool
wanted filter m slot = occupied m slot && passes filter (offset m (record_offset m slot))

unwanted :
    (filter : Option (Bytes → Bool)) (m : Bytes) (lo hi : ℕ)
    → NoneIn (occupied m) lo hi
    → NoneIn (wanted filter m) lo hi
unwanted filter m lo hi h j a b = rw (h j a b) refl

passed_over :
    (filter : Option (Bytes → Bool)) (m : Bytes) (lo k : ℕ)
    → NoneIn (occupied m) lo k
    → passes filter (offset m (record_offset m k)) ≡ false
    → NoneIn (wanted filter m) lo (k + 1)
passed_over filter m lo k h n j a b = elim (Bool-cases (ltb j k)) [
  | inl before ↦ unwanted filter m lo k h j a (ground arith)
  | inr there ↦ let e : j ≡ k = ground arith in rw e (both (occupied m k) _ n)
]
  where
    both : (b c : Bool) → c ≡ false → (b && c) ≡ false
    both true c h = h
    both false c h = refl

-- From the start of a page, or from a record that is still there, the scan of one page goes to the
-- next record that the filter accepts, and to RECORD_EOF exactly when the page has none: given a
-- round for each slot that is left and one more, the rounds do not run out.
pub next_in_page-First :
    (filter : Option (Bytes → Bool)) (m : Bytes) (rounds : ℕ) (after : Option ℕ)
    → IsSettled m after
    → record_capacity m + 1 ≤ rounds + following after
    → (r : Option ℕ) × (next_in_page filter m rounds after ≡ found_or_eof r)
      × First (wanted filter m) (following after) (record_capacity m) r
unfolding next_in_page
next_in_page-First filter m zero after settled enough = (none, refl, λ j a b. absurd (omega arith))
next_in_page-First filter m (suc n) after settled enough =
    let (r, found, first) = next-First m after settled in
    step r found first λ k held lo. next_in_page-First filter m n (some k) held (omega arith)
  where
    step :
        (r : Option ℕ)
        → next m after ≡ found_or_eof r
        → First (occupied m) (following after) (record_capacity m) r
        → ((k : ℕ)
            → occupied m k ≡ true
            → following after ≤ k
            → (r' : Option ℕ) × (next_in_page filter m n (some k) ≡ found_or_eof r')
              × First (wanted filter m) (k + 1) (record_capacity m) r')
        → (r' : Option ℕ) × (next_in_page filter m (suc n) after ≡ found_or_eof r')
          × First (wanted filter m) (following after) (record_capacity m) r'
    step none found first again = (none, rw (next_in_page, found) refl, unwanted filter m _ _ first)
    step (some k) found (lo, hi, held, before) again =
        elim (Bool-cases (passes filter (offset m (record_offset m k)))) [
          | inl accepted ↦ (
            some k,
            rw (next_in_page, found, accepted) refl,
            (lo, hi, rw (held, accepted) refl, unwanted filter m _ _ before),
          )
          | inr skip ↦
              let (r, run, first) = again k held lo in
              (
                r,
                rw (next_in_page, found, skip) run,
                First-extend (wanted filter m) (following after) (k + 1) (record_capacity m) r
                    (omega arith) (passed_over filter m (following after) k before skip) first,
              )
        ]
