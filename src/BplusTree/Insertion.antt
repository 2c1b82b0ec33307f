-- ===== src/BplusTree/Insertion.antt =====
-- `insert_into_leaf` and `insert_entry` of bplus_tree.cpp where the leaf has room, against the tree that
-- the pages make up.
pub mod Grown
use Prim.Native.Nat.{Ordering}
use Prim.Native.Nat.Ordering.{eq}
use atangyldb.Base.{ℕ, ◌≡◌, ◌≢◌, ◌↔◌, ◌⊎◌, ap, ◌∙◌, false, Option, none, some}
use atangyldb.Rc.{Result, ok, err, record_duplicate_key}
use atangyldb.Trx.{Rid}
use atangyldb.BplusTree.{IndexPool, IndexPage, Floats, Index, Key}
use atangyldb.BplusTree.Compare.{cmp_key}
use atangyldb.BplusTree.Node.{lower_position, insert_at}
use atangyldb.BplusTree.Order.{IsOrder}
use atangyldb.BplusTree.Pages.{IsIndexPool, Store, raise, replace, pages}
use atangyldb.BplusTree.Insert.{insert_into_leaf}
use atangyldb.BplusTree.Tree.Replace.{replace-IsTree, Stored-before, Stored-after, Stored-new}
use atangyldb.BplusTree.Leaf.{
  IsPlace, lower_position-IsPlace, insert_at-IsOrdered, HasEntry-insert_at, insert_at-HasEntry,
}
use atangyldb.BplusTree.Lookup.{IsIndex, IsStored, AtRoot}
use atangyldb.BplusTree.Written.{stored, stored_content}
use atangyldb.BplusTree.Insertion.Grown.{fuller}

module _ (pool : IndexPool) (laws : IsIndexPool pool) (fl : Floats) where
  abbrev I : Type 0
  I = Index pool.State

  abbrev cmp : I → Key → Key → Ordering
  cmp t = cmp_key fl t.file_header

  -- What `insert_entry` did with an entry that goes to a leaf with room: it was there already, and
  -- nothing changes but a pin of the leaf's page, or the index has it in addition.
  abbrev pub InsertOutcome : I → ℕ → Key → Rid → Result (Unit {0}) × I → pool.State → ℕ → Type 0
  InsertOutcome t level key rid out s leaf =
      ((out ≡ (err record_duplicate_key, record t { pool = s }))
        × ((r : Rid) × IsStored pool laws fl t level key r)
        × (laws.content s ≡ laws.content t.pool)
        × (laws.pins s ≡ raise (laws.pins t.pool) t.file_id leaf))
      ⊎ ((out ≡ (ok tt, record t { pool = s }))
          × IsIndex pool laws fl (record t { pool = s }) level
          × ((k : Key) (r : Rid)
              → IsStored pool laws fl (record t { pool = s }) level k r
                ↔ (IsStored pool laws fl t level k r ⊎ ((cmp t k key ≡ eq) × (rid ≡ r))))
          × (laws.pins s ≡ laws.pins t.pool))

  -- `insert_into_leaf`, which gets the leaf's page from `s` as `s'`.
  module _ (level leaf : ℕ) (key : Key) (rid : Rid) (t : I) (s s' : pool.State)
      (order : IsOrder (cmp t)) (tree : IsIndex pool laws fl t level)
      (r : AtRoot pool laws fl t level key leaf)
      (got : pool.get_this_page t.file_id leaf s ≡ (ok tt, s'))
      (same : laws.content s' ≡ laws.content t.pool)
      (pins : laws.pins s' ≡ raise (laws.pins t.pool) t.file_id leaf) where
    abbrev out : Result (Unit {0}) × I
    out = insert_into_leaf pool fl leaf key rid (record t { pool = s })

    abbrev full : IndexPage
    full = fuller pool laws fl t key rid r.page

    here : laws.content s' t.file_id leaf ≡ some r.page
    here = ap (λ (c : Store). c t.file_id leaf) same ∙ r.here

    written :
        laws.content (stored pool laws t leaf full s')
        ≡ replace (laws.content t.pool) t.file_id leaf (some full)
    written =
        stored_content pool laws t leaf r.page full s' here
        ∙ ap (λ (c : Store). replace c t.file_id leaf (some full)) same
