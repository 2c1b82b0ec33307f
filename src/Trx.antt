-- ===== src/Trx.antt =====
-- Transactions: storage/trx/trx.h and trx.cpp, with the methods of Table in storage/common/table.cpp
-- that commit and roll back (Trx/Table). A transaction logs its operations by table and record, and
-- keeps its id in a field of each record that it wrote.
pub mod Table
pub mod Visible
pub mod Log
pub mod Settled
pub mod Loops
pub mod Commit
use atangyldb.Base.{
  ℕ, ◌+◌, ◌%◌, ◌^◌, Bool, true, false, not, ◌&&◌, ◌||◌, Option, none, some, List, [], ◌∷◌, ◌++◌,
  if◌then◌else◌, ◌==◌, ltb, leb,
}
use atangyldb.Memory.{Bytes, load_int, store_int}
use atangyldb.Rc.{Result, ok, err, undefined, generic_error}

pub record Rid : Type 0 where
  pub page_num : ℕ
  pub slot_num : ℕ

pub data OperationType : Type 0 where
  insert delete undefined_type : OperationType

pub record Operation : Type 0 where
  pub type : OperationType
  pub rid : Rid

-- OperationEqualer, against the operation that `find` is called with.
abbrev pub same_rid : Rid → Rid → Bool
same_rid a b = a.page_num == b.page_num && a.slot_num == b.slot_num

-- `operations_`: per table, named by a number, its set of operations.
pub record TableOperations : Type 0 where
  pub table : ℕ
  pub operations : List Operation

pub record Trx : Type 0 where
  pub trx_id : ℕ
  pub operations : List TableOperations

abbrev pub new_trx : Trx
new_trx = record { trx_id = 0; operations = [] }

-- DELETED_FLAG_BIT_MASK, and one more than TRX_ID_BIT_MASK
abbrev pub deleted_flag : ℕ
deleted_flag = 2 ^ 31

-- `trx_id |= DELETED_FLAG_BIT_MASK` on the 32 bits of `trx_id`
unfoldable pub with_flag : ℕ → ℕ
with_flag id = if ltb id deleted_flag then id + deleted_flag else id

-- `set_record_trx_id`, by the offset of the field in the record
unfoldable pub set_record_trx_id : ℕ → Bytes → ℕ → Bool → Bytes
unfolding with_flag store_int
set_record_trx_id offset bytes id deleted =
    store_int bytes offset (if deleted then with_flag id else id)

-- `get_record_trx_id`: the id and the mark
unfoldable pub get_record_trx_id : ℕ → Bytes → ℕ × Bool
unfolding load_int
get_record_trx_id offset bytes =
    let trx = load_int bytes offset in (trx % deleted_flag, leb deleted_flag trx)

-- `is_visible`
unfoldable pub is_visible : ℕ → Trx → Bytes → Bool
unfolding get_record_trx_id
is_visible offset t bytes =
    let (id, deleted) = get_record_trx_id offset bytes in
    if id == 0 || id == t.trx_id then not deleted else deleted

unfoldable pub init_trx_info : ℕ → Trx → Bytes → Bytes
unfolding set_record_trx_id
init_trx_info offset t bytes = set_record_trx_id offset bytes t.trx_id false

-- `commit_insert` and `rollback_delete` of Trx: the record belongs to no transaction any more.
unfoldable pub release_record : ℕ → Bytes → Bytes
unfolding set_record_trx_id
release_record offset bytes = set_record_trx_id offset bytes 0 false

-- `next_trx_id`: the id, which is the new value of the counter, an `int32_t` that wraps.
unfoldable pub next_trx_id : ℕ → ℕ
next_trx_id counter = (counter + 1) % 2 ^ 32

-- `start_if_not_started`: the transaction and the counter
unfoldable pub start_if_not_started : Trx → ℕ → Trx × ℕ
unfolding next_trx_id
start_if_not_started t counter =
    if t.trx_id == 0
    then (record t { trx_id = next_trx_id counter }, next_trx_id counter)
    else (t, counter)

-- `table_operations.find`
unfoldable pub find_rid : Rid → List Operation → Option Operation
find_rid rid [] = none
find_rid rid (o ∷ os) = if same_rid o.rid rid then some o else find_rid rid os

-- `find_operation`
unfoldable pub find_in : ℕ → Rid → List TableOperations → Option Operation
unfolding find_rid
find_in table rid [] = none
find_in table rid (s ∷ ss) =
    if s.table == table then find_rid rid s.operations else find_in table rid ss

unfoldable pub find_operation : Trx → ℕ → Rid → Option Operation
unfolding find_in
find_operation t table rid = find_in table rid t.operations

-- `table_operations.emplace`, which does nothing if there is an operation on the record
unfoldable pub emplace : Operation → List Operation → List Operation
unfolding find_rid
emplace o os = elim (find_rid o.rid os) [ none ↦ os ++ o ∷ [] | some _ ↦ os ]

-- `insert_operation`
unfoldable pub insert_in : ℕ → Operation → List TableOperations → List TableOperations
unfolding emplace
insert_in table o [] = record { table = table; operations = o ∷ [] } ∷ []
insert_in table o (s ∷ ss) =
    if s.table == table
    then record s { operations = emplace o s.operations } ∷ ss
    else s ∷ insert_in table o ss

unfoldable pub insert_operation : Trx → ℕ → Operation → Trx
unfolding insert_in
insert_operation t table o = record t { operations = insert_in table o t.operations }

-- `erase` of a set
unfoldable pub erase_rid : Rid → List Operation → List Operation
erase_rid rid [] = []
erase_rid rid (o ∷ os) = if same_rid o.rid rid then os else o ∷ erase_rid rid os

-- `delete_operation`
unfoldable pub delete_in : ℕ → Rid → List TableOperations → List TableOperations
unfolding erase_rid
delete_in table rid [] = []
delete_in table rid (s ∷ ss) =
    if s.table == table
    then record s { operations = erase_rid rid s.operations } ∷ ss
    else s ∷ delete_in table rid ss

unfoldable pub delete_operation : Trx → ℕ → Rid → Trx
unfolding delete_in
delete_operation t table rid = record t { operations = delete_in table rid t.operations }

-- `Trx::insert_record`, with the counter of ids
unfoldable pub insert_record : ℕ → Rid → Trx → ℕ → Result (Unit {0}) × Trx × ℕ
unfolding find_operation start_if_not_started insert_operation
insert_record table rid t counter = elim (find_operation t table rid) [
  | some _ ↦ (err generic_error, t, counter)
  | none ↦
      let (t', counter') = start_if_not_started t counter in
      (ok tt, insert_operation t' table (record { type = insert; rid = rid }), counter')
]

-- `Trx::delete_record` on a record with the bytes `bytes`: the result, the bytes, the transaction
-- and the counter.
unfoldable pub delete_record : ℕ → ℕ → Rid → Bytes → Trx → ℕ → Result (Unit {0}) × Bytes × Trx × ℕ
unfolding find_operation start_if_not_started delete_operation insert_operation set_record_trx_id
delete_record offset table rid bytes t counter =
    let (t', counter') = start_if_not_started t counter in
    elim (find_operation t' table rid) [
      | some o ↦ elim o.type [
        | insert ↦ (ok tt, bytes, delete_operation t' table rid, counter')
        | delete ↦ (err generic_error, bytes, t', counter')
        | undefined_type ↦ (err generic_error, bytes, t', counter')
      ]
      | none ↦ (
        ok tt,
        set_record_trx_id offset bytes t'.trx_id true,
        insert_operation t' table (record { type = delete; rid = rid }),
        counter',
      )
    ]
