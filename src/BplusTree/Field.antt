-- ===== src/BplusTree/Field.antt =====
-- BplusTreeIndex and BplusTreeIndexScanner of storage/common/bplus_tree_index.cpp: the index of a field of
-- a table.
use Prim.Native.String.{String}
use atangyldb.Base.{ℕ, Bool, true, false, if◌then◌else◌}
use atangyldb.Memory.{Bytes, offset}
use atangyldb.Rc.{Result, ok, err, undefined, record_openned, record_duplicate_key}
use atangyldb.Trx.{Rid}
use atangyldb.BplusTree.{AttrType, equal_to, IndexPool, Floats, Index}
use atangyldb.BplusTree.Insert.{insert_entry}
use atangyldb.BplusTree.Delete.{delete_entry}
use atangyldb.BplusTree.File.{create, open_index, close, sync}
use atangyldb.BplusTree.Scanner.{new_scanner, open_scan, next_entry}

-- FieldMeta, by what the index asks for.
pub record Indexed : Type 0 where
  pub type : AttrType
  pub len : ℕ
  pub field_offset : ℕ

pub record BplusTreeIndex (S : Type 0) : Type 0 where
  pub inited : Bool
  pub field_meta : Indexed
  pub index_handler : Index S
  pub unique : Bool

module _ (pool : IndexPool) (fl : Floats) where
  abbrev pub T : Type 0
  T = BplusTreeIndex pool.State

  -- What `create` and `open` do with the result of the handler.
  abbrev init_with : T → Indexed → Result (Unit {0}) × Index pool.State → Result (Unit {0}) × T
  init_with ix meta (ok u, t) =
      (ok u, record ix { field_meta = meta; index_handler = t; inited = true })
  init_with ix meta (err e, t) = (err e, record ix { field_meta = meta; index_handler = t })
  init_with ix meta (undefined, t) = (undefined, record ix { field_meta = meta; index_handler = t })

  unfoldable pub create_field : String → Indexed → T → Result (Unit {0}) × T
  unfolding create
  create_field name meta ix =
      let made = init_with ix meta (create pool name meta.type meta.len ix.index_handler) in
      if ix.inited then (err record_openned, ix) else made

  unfoldable pub open_field : String → Indexed → T → Result (Unit {0}) × T
  unfolding open_index
  open_field name meta ix =
      let made = init_with ix meta (open_index pool name ix.index_handler) in
      if ix.inited then (err record_openned, ix) else made

  unfoldable pub close_field : T → Result (Unit {0}) × T
  unfolding close
  close_field ix =
      let closed = record ix { index_handler = (close pool ix.index_handler).1; inited = false } in
      if ix.inited then (ok tt, closed) else (ok tt, ix)

  abbrev with_handler : T → Result (Unit {0}) × Index pool.State → Result (Unit {0}) × T
  with_handler ix (r, t) = (r, record ix { index_handler = t })

  -- The search of `insert_entry` for an entry with the same value. A scanner that cannot be opened is a
  -- null pointer, which is used all the same. `destroy` closes the scanner, which gives no page back.
  unfoldable pub has_value : ℕ → ℕ → Bytes → Index pool.State → Result Bool × Index pool.State
  unfolding open_scan next_entry
  has_value levels leaves value t =
      let (opened, sc, t') = open_scan pool fl levels leaves equal_to value new_scanner t in
      let (found, _, t'') = next_entry pool fl sc t' in
      elim opened [
        | err e ↦ (undefined, t')
        | undefined ↦ (undefined, t')
        | ok _ ↦ elim found [
          | ok rid ↦ (ok true, t'')
          | err e ↦ (ok false, t'')
          | undefined ↦ (undefined, t'')
        ]
      ]

  unfoldable pub insert_field : ℕ → ℕ → Bytes → Rid → T → Result (Unit {0}) × T
  unfolding has_value insert_entry
  insert_field levels leaves bytes rid ix =
      let value = offset bytes ix.field_meta.field_offset in
      let added =
        λ (t : Index pool.State). with_handler ix (insert_entry pool fl levels value rid t) in
      let (found, t) = has_value levels leaves value ix.index_handler in
      let checked : Result (Unit {0}) × T = elim found [
        | ok dup ↦
            if dup then (err record_duplicate_key, record ix { index_handler = t }) else added t
        | err e ↦ (err e, record ix { index_handler = t })
        | undefined ↦ (undefined, record ix { index_handler = t })
      ] in
      if ix.unique then checked else added ix.index_handler

  unfoldable pub delete_field : ℕ → Bytes → Rid → T → Result (Unit {0}) × T
  unfolding delete_entry
  delete_field levels bytes rid ix =
      let value = offset bytes ix.field_meta.field_offset in
      with_handler ix (delete_entry pool fl levels value rid ix.index_handler)

  unfoldable pub sync_field : T → Result (Unit {0}) × T
  unfolding sync
  sync_field ix = with_handler ix (sync pool ix.index_handler)
