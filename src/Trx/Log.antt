-- ===== src/Trx/Log.antt =====
-- The log of a transaction in trx.cpp: per table, at most one operation on a record.
use atangyldb.Base.{
  ℕ, ◌≡◌, ◌≢◌, refl, sym, ap, ◌∙◌, inl, inr, Bool, true, false, ◌&&◌, Option, none, some, List, [],
  ◌∷◌, ◌++◌, if◌then◌else◌, ◌==◌, arith, Bool-cases, Option-cases,
}
use atangyldb.Rc.{ok, err, generic_error}
use atangyldb.Trx.{
  Rid, same_rid, insert, Operation, TableOperations, Trx, find_rid, find_in, find_operation,
  emplace, insert_in, insert_operation, insert_record, start_if_not_started, next_trx_id,
}

-- No two operations on one record, and no two sets for one table.
abbrev pub IsSetOfOperations : List Operation → Type 0
IsSetOfOperations [] = Unit {0}
IsSetOfOperations (o ∷ os) = (find_rid o.rid os ≡ none) × IsSetOfOperations os

unfoldable pub operations_of : ℕ → List TableOperations → List Operation
operations_of table [] = []
operations_of table (s ∷ ss) = if s.table == table then s.operations else operations_of table ss

abbrev pub IsLog : List TableOperations → Type 0
IsLog [] = Unit {0}
IsLog (s ∷ ss) = IsSetOfOperations s.operations × IsLog ss

find_rid-snoc :
    (o : Operation) (rid : Rid) (os : List Operation)
    → find_rid rid (os ++ o ∷ []) ≡ elim (find_rid rid os) [
      | none ↦ (if same_rid o.rid rid then some o else none)
      | some x ↦ some x
    ]
unfolding find_rid
find_rid-snoc o rid [] = refl
find_rid-snoc o rid (x ∷ xs) = ground (arith, find_rid-snoc o rid xs)

pub same_found :
    (a b : Rid) (os : List Operation) → same_rid a b ≡ true → find_rid a os ≡ find_rid b os
unfolding find_rid
same_found a b [] h = refl
same_found a b (o ∷ os) h = ground (arith, same_found a b os h)

snoc_set :
    (o : Operation) (os : List Operation)
    → IsSetOfOperations os
    → find_rid o.rid os ≡ none
    → IsSetOfOperations (os ++ o ∷ [])
unfolding find_rid
snoc_set o [] u e = (refl, tt)
snoc_set o (x ∷ xs) u e = ground (arith, find_rid-snoc o x.rid xs, snoc_set o xs u.1)

pick :
    (o : Operation) (r : Option Operation) (b : Bool)
    → (b ≡ true → r ≡ none)
    → elim r [ none ↦ (if b then some o else none) | some x ↦ some x ] ≡ (if b then some o else r)
pick o none true h = refl
pick o none false h = refl
pick o (some x) true h = let e = h refl in absurd (cc)
pick o (some x) false h = refl

emplace-law :
    (o : Operation) (rid : Rid) (os : List Operation)
    → find_rid o.rid os ≡ none
    → find_rid rid (emplace o os) ≡ (if same_rid o.rid rid then some o else find_rid rid os)
unfolding emplace
emplace-law o rid os e =
    let put : emplace o os ≡ os ++ o ∷ [] = rw (emplace, e) refl in
    ap (find_rid rid) put
    ∙ find_rid-snoc o rid os
    ∙ pick o (find_rid rid os) (same_rid o.rid rid) (λ same. sym (same_found o.rid rid os same) ∙ e)

insert_in-law :
    (table : ℕ) (o : Operation) (table' : ℕ) (rid : Rid) (log : List TableOperations)
    → find_in table o.rid log ≡ none
    → find_in table' rid (insert_in table o log)
      ≡ (if table == table' && same_rid o.rid rid then some o else find_in table' rid log)
unfolding find_in insert_in find_rid
insert_in-law table o table' rid [] e = ground arith
insert_in-law table o table' rid (s ∷ ss) e =
    ground (arith, insert_in-law table o table' rid ss, emplace-law o rid s.operations)

-- The id with which a transaction goes on.
abbrev pub running_id : Trx → ℕ → ℕ
running_id t counter = if t.trx_id == 0 then next_trx_id counter else t.trx_id

started :
    (t : Trx) (counter : ℕ)
    → ((start_if_not_started t counter).0.trx_id ≡ running_id t counter)
      × ((start_if_not_started t counter).0.operations ≡ t.operations)
unfolding start_if_not_started
started t counter = elim (Bool-cases (t.trx_id == 0)) [
  | inl idle ↦ (rw idle refl, rw idle refl)
  | inr busy ↦ (rw busy refl, rw busy refl)
]

-- `insert_record` refuses a record that the transaction has an operation on, and changes nothing;
-- otherwise it starts the transaction if need be and logs one insertion, and no other entry of the
-- log changes.
pub insert_record-logs :
    (table : ℕ) (rid : Rid) (t : Trx) (counter : ℕ)
    → (find_operation t table rid ≢ none
        → insert_record table rid t counter ≡ (err generic_error, t, counter))
      × (find_operation t table rid ≡ none
          → (t' : Trx) × (counter' : ℕ) × (insert_record table rid t counter
              ≡ (ok tt, t', counter'))
            × (t'.trx_id ≡ running_id t counter)
            × ((table' : ℕ) (rid' : Rid)
                → find_operation t' table' rid' ≡ (
                    if table == table' && same_rid rid rid'
                    then some (record { type = insert; rid = rid })
                    else find_operation t table' rid')))
unfolding insert_record find_operation insert_operation
insert_record-logs table rid t counter = (
  λ h. elim (Option-cases (find_in table rid t.operations)) [
    | inl e ↦ absurd (h e)
    | inr (o, e) ↦ rw (insert_record, e) refl
  ],
  λ e.
      let o : Operation = record { type = insert; rid = rid } in
      let s = started t counter in
      (
        insert_operation (start_if_not_started t counter).0 table o,
        (start_if_not_started t counter).1,
        rw (insert_record, e) refl,
        s.0,
        λ table' rid'.
            ap (λ log. find_in table' rid' (insert_in table o log)) s.1
            ∙ insert_in-law table o table' rid' t.operations e,
      ),
)
