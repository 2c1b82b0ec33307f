-- ===== src/Trx/Table.antt =====
-- The methods of Table in storage/common/table.cpp that a transaction calls at its end, over what the
-- table offers for its records (RecordFileHandler) and its indexes.
use atangyldb.Base.{ℕ, Bool, false, List, [], ◌∷◌}
use atangyldb.Memory.{Bytes}
use atangyldb.Rc.{Result, ok, err, undefined}
use atangyldb.Trx.{
  Rid, insert, delete, undefined_type, Operation, TableOperations, Trx, release_record,
}

-- The calls on a table: `get_record` of the record handler gives the bytes of a record in its page,
-- and `write_record` is a write through that address.
pub record Tables : Type 1 where
  pub State : Type 0
  pub trx_offset : ℕ → ℕ
  pub get_record : State → ℕ → Rid → Result Bytes
  pub write_record : State → ℕ → Rid → Bytes → State
  pub delete_record : State → ℕ → Rid → Result (Unit {0}) × State
  pub delete_entry_of_indexes : State → ℕ → Bytes → Rid → Bool → Result (Unit {0}) × State
  -- The loop of `commit_delete` over the TEXTS fields.
  pub delete_texts : State → ℕ → Bytes → State

module _ (tables : Tables) where
  abbrev pub S : Type 0
  S = tables.State

  -- What the three methods that begin with `get_record` do with its result.
  unfoldable pub with_record :
      {B : Type 0} → S → Result Bytes → (Bytes → Result B × S) → Result B × S
  with_record s (ok bytes) f = f bytes
  with_record s (err e) f = (err e, s)
  with_record s undefined f = (undefined, s)

  unfoldable pub commit_insert : S → ℕ → Rid → Result (Unit {0}) × S
  unfolding with_record release_record
  commit_insert s table rid = with_record s (tables.get_record s table rid) λ bytes.
      (ok tt, tables.write_record s table rid (release_record (tables.trx_offset table) bytes))

  unfoldable pub rollback_delete : S → ℕ → Rid → Result (Unit {0}) × S
  unfolding with_record release_record
  rollback_delete s table rid = with_record s (tables.get_record s table rid) λ bytes.
      (ok tt, tables.write_record s table rid (release_record (tables.trx_offset table) bytes))

  unfoldable pub rollback_insert : S → ℕ → Rid → Result (Unit {0}) × S
  unfolding with_record
  rollback_insert s table rid = with_record s (tables.get_record s table rid) λ bytes.
      let (removed, s') = tables.delete_entry_of_indexes s table bytes rid false in
      elim removed [
        | ok _ ↦ tables.delete_record s' table rid
        | err e ↦ (err e, s')
        | undefined ↦ (undefined, s')
      ]

  -- An error of the indexes is only logged.
  unfoldable pub commit_delete : S → ℕ → Rid → Result (Unit {0}) × S
  unfolding with_record
  commit_delete s table rid = with_record s (tables.get_record s table rid) λ bytes.
      let s₁ = (tables.delete_entry_of_indexes s table bytes rid false).1 in
      tables.delete_record (tables.delete_texts s₁ table bytes) table rid

  -- The switch in the loops of `commit` and `rollback`; an operation of another type panics.
  unfoldable pub commit_one : S → ℕ → Operation → Result (Unit {0}) × S
  unfolding commit_insert commit_delete
  commit_one s table o = elim o.type [
    | insert ↦ commit_insert s table o.rid
    | delete ↦ commit_delete s table o.rid
    | undefined_type ↦ (undefined, s)
  ]

  unfoldable pub rollback_one : S → ℕ → Operation → Result (Unit {0}) × S
  unfolding rollback_insert rollback_delete
  rollback_one s table o = elim o.type [
    | insert ↦ rollback_insert s table o.rid
    | delete ↦ rollback_delete s table o.rid
    | undefined_type ↦ (undefined, s)
  ]

  -- The two loops, with the code of the last operation.
  abbrev pub Step : Type 0
  Step = S → ℕ → Operation → Result (Unit {0}) × S

  unfoldable pub each_operation :
      Step → ℕ → List Operation → Result (Unit {0}) × S → Result (Unit {0}) × S
  each_operation step table [] r = r
  each_operation step table (o ∷ os) (ok _, s) = each_operation step table os (step s table o)
  each_operation step table (o ∷ os) (err _, s) = each_operation step table os (step s table o)
  each_operation step table (o ∷ os) (undefined, s) = (undefined, s)

  unfoldable pub each_table :
      Step → List TableOperations → Result (Unit {0}) × S → Result (Unit {0}) × S
  unfolding each_operation
  each_table step [] r = r
  each_table step (t ∷ ts) r = each_table step ts (each_operation step t.table t.operations r)

  unfoldable pub commit : Trx → S → Result (Unit {0}) × Trx × S
  unfolding each_table commit_one
  commit t s =
      let (rc, s') = each_table commit_one t.operations (ok tt, s) in
      (rc, record { trx_id = 0; operations = [] }, s')

  unfoldable pub rollback : Trx → S → Result (Unit {0}) × Trx × S
  unfolding each_table rollback_one
  rollback t s =
      let (rc, s') = each_table rollback_one t.operations (ok tt, s) in
      (rc, record { trx_id = 0; operations = [] }, s')
