-- ===== src/Tests/Transactions.antt =====
-- Transactions of trx.cpp at concrete inputs.
use atangyldb.Base.{
  ℕ, ◌<◌, ◌≤◌, ◌≡◌, ◌≢◌, ◌⊎◌, refl, true, ◌&&◌, Option, none, some, [], ◌∷◌, if◌then◌else◌, ◌==◌,
  arith,
}
use atangyldb.Memory.{Bytes}
use atangyldb.Rc.{Result, ok, err, generic_error, record_record_not_exist}
use atangyldb.Trx.{
  Rid, same_rid, insert, Trx, find_operation, set_record_trx_id, get_record_trx_id, delete_record,
  insert_record,
}
use atangyldb.Trx.Visible.{get_record_trx_id-set_record_trx_id}
use atangyldb.Trx.Log.{insert_record-logs, running_id}
use atangyldb.Trx.Table.{Tables}
use atangyldb.Trx.Settled.{IsTables}

abbrev zeros : Bytes
zeros _ = 0

abbrev rid : Rid
rid = record { page_num = 1; slot_num = 4 }

-- Transaction 7 inserted a record, transaction 8 did nothing.
abbrev seven : Trx
seven = record {
  trx_id = 7;
  operations = record { table = 0; operations = record { type = insert; rid = rid } ∷ [] } ∷ [];
}

abbrev eight : Trx
eight = record { trx_id = 8; operations = [] }

get_record_trx_id-set_record_trx_id_test :
    (get_record_trx_id 4 (set_record_trx_id 4 zeros 7 true) ≡ (7, true))
    × ((i : ℕ) → (i < 4) ⊎ (8 ≤ i) → set_record_trx_id 4 zeros 7 true i ≡ zeros i)
get_record_trx_id-set_record_trx_id_test =
    get_record_trx_id-set_record_trx_id 4 zeros 7 true (omega arith)

insert_record-logs_test :
    (find_operation eight 0 rid ≢ none
      → insert_record 0 rid eight 8 ≡ (err generic_error, eight, 8))
    × (find_operation eight 0 rid ≡ none
        → (t' : Trx) × (counter' : ℕ) × (insert_record 0 rid eight 8 ≡ (ok tt, t', counter'))
          × (t'.trx_id ≡ running_id eight 8)
          × ((table' : ℕ) (rid' : Rid)
              → find_operation t' table' rid' ≡ (
                  if 0 == table' && same_rid rid rid'
                  then some (record { type = insert; rid = rid })
                  else find_operation eight table' rid')))
insert_record-logs_test = insert_record-logs 0 rid eight 8

-- Tables that are maps, without indexes and texts.
abbrev Contents : Type 0
Contents = ℕ → Rid → Option Bytes

unfoldable set_content : Contents → ℕ → Rid → Option Bytes → Contents
set_content c t r b t' r' = if t == t' && same_rid r r' then b else c t' r'

unfoldable or_missing : Option Bytes → Result Bytes
or_missing none = err record_record_not_exist
or_missing (some b) = ok b

abbrev maps : Tables
maps = record {
  State = Contents;
  trx_offset = λ _. 4;
  get_record = λ s t r. or_missing (s t r);
  write_record = λ s t r b. set_content s t r (some b);
  delete_record = λ s t r. (ok tt, set_content s t r none);
  delete_entry_of_indexes = λ s _ _ _ _. (ok tt, s);
  delete_texts = λ s _ _. s;
}

unfoldable maps-IsTables : IsTables maps
unfolding set_content or_missing
maps-IsTables = record {
  content = λ s. s;
  gets = λ s t r b e. rw e refl;
  writes = λ s t r b t' r'. refl;
  deletes = λ s t r b e. (set_content s t r none, refl, λ t' r'. refl);
  entries = λ s t b r. (s, refl, λ t' r'. refl);
  texts = λ s t b t' r'. refl;
}

-- Every record is there.
abbrev full : Contents
full _ _ = some zeros
