-- ===== src/Trx/Settled.antt =====
-- What the end of a transaction of trx.cpp does to a record of a table, and what it relies on.
use atangyldb.Base.{
  ℕ, ◌≡◌, ◌≢◌, ◌∙◌, true, false, ◌&&◌, Option, none, some, List, [], ◌∷◌, if◌then◌else◌, ◌==◌,
  arith,
}
use atangyldb.Memory.{Bytes}
use atangyldb.Rc.{ok}
use atangyldb.Trx.{
  Rid, same_rid, OperationType, insert, delete, undefined_type, Operation, TableOperations,
  find_rid, release_record,
}
use atangyldb.Trx.Log.{IsSetOfOperations}
use atangyldb.Trx.Table.{Tables}

-- What a transaction relies on: each table maps rids to the bytes of records, the three calls on
-- records read and write this map, and the calls on indexes and texts leave it alone. Entries of
-- indexes can be deleted.
pub record IsTables (tables : Tables) : Type 0 where
  pub content : tables.State → ℕ → Rid → Option Bytes
  pub gets :
      (s : tables.State) (t : ℕ) (r : Rid) (b : Bytes)
      → content s t r ≡ some b
      → tables.get_record s t r ≡ ok b
  pub writes :
      (s : tables.State) (t : ℕ) (r : Rid) (b : Bytes) (t' : ℕ) (r' : Rid)
      → content (tables.write_record s t r b) t' r'
        ≡ (if t == t' && same_rid r r' then some b else content s t' r')
  pub deletes :
      (s : tables.State) (t : ℕ) (r : Rid) (b : Bytes)
      → content s t r ≡ some b
      → (s' : tables.State) × (tables.delete_record s t r ≡ (ok tt, s'))
        × ((t' : ℕ) (r' : Rid)
            → content s' t' r' ≡ (if t == t' && same_rid r r' then none else content s t' r'))
  pub entries :
      (s : tables.State) (t : ℕ) (b : Bytes) (r : Rid)
      → (s' : tables.State) × (tables.delete_entry_of_indexes s t b r false ≡ (ok tt, s'))
        × ((t' : ℕ) (r' : Rid) → content s' t' r' ≡ content s t' r')
  pub texts :
      (s : tables.State) (t : ℕ) (b : Bytes) (t' : ℕ) (r' : Rid)
      → content (tables.delete_texts s t b) t' r' ≡ content s t' r'

-- What becomes of a record with an operation in the log, and of one without.
abbrev pub Effect : Type 0
Effect = ℕ → OperationType → Bytes → Option Bytes

abbrev pub settled : Effect → ℕ → Option Operation → Option Bytes → Option Bytes
settled eff table none c = c
settled eff table (some o) none = none
settled eff table (some o) (some b) = eff table o.type b

abbrev pub commit_effect : (ℕ → ℕ) → Effect
commit_effect offset table insert b = some (release_record (offset table) b)
commit_effect offset table delete b = none
commit_effect offset table undefined_type b = some b

abbrev pub rollback_effect : (ℕ → ℕ) → Effect
rollback_effect offset table insert b = none
rollback_effect offset table delete b = some (release_record (offset table) b)
rollback_effect offset table undefined_type b = some b

-- The records that the operations are about are there.
abbrev pub ArePresent : (Rid → Option Bytes) → List Operation → Type 0
ArePresent c [] = Unit {0}
ArePresent c (o ∷ os) =
    ((b : Bytes) × (c o.rid ≡ some b)) × (o.type ≢ undefined_type) × ArePresent c os

abbrev pub IsWithout : ℕ → List TableOperations → Type 0
IsWithout t [] = Unit {0}
IsWithout t (s ∷ ss) = ((s.table == t) ≡ false) × IsWithout t ss

-- One set per table, one operation per record, and the record there.
abbrev pub IsApplicable : (ℕ → Rid → Option Bytes) → List TableOperations → Type 0
IsApplicable c [] = Unit {0}
IsApplicable c (s ∷ ss) =
    IsWithout s.table ss
    × IsSetOfOperations s.operations
    × ArePresent (c s.table) s.operations
    × IsApplicable c ss

pub rid_path : (a b : Rid) → same_rid a b ≡ true → a ≡ b
rid_path a b h =
    let p : a.page_num ≡ b.page_num = ground arith in
    let q : a.slot_num ≡ b.slot_num = ground arith in λ i. record { page_num = p i; slot_num = q i }

pub still_present :
    (c c' : Rid → Option Bytes) (r : Rid) (os : List Operation)
    → ((r' : Rid) → same_rid r r' ≡ false → c' r' ≡ c r')
    → find_rid r os ≡ none
    → ArePresent c os
    → ArePresent c' os
unfolding find_rid
still_present c c' r [] same e h = tt
still_present c c' r (o ∷ os) same e h =
    let apart : same_rid r o.rid ≡ false = ground arith in
    let e' : find_rid r os ≡ none = ground arith in
    ((h.0.0, same o.rid apart ∙ h.0.1), h.1, still_present c c' r os same e' h.2)
