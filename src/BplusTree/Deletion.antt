-- ===== src/BplusTree/Deletion.antt =====
-- `delete_entry` of bplus_tree.cpp where the leaf keeps enough keys, against the tree that the pages
-- make up.
pub mod Shrunk
pub mod Steps
use Prim.Native.Nat.{Ordering}
use Prim.Native.Nat.Ordering.{eq}
use atangyldb.Base.{
  ℕ, suc, ◌+◌, ◌-◌, ◌≤◌, ◌<◌, ◌≡◌, ◌≢◌, ◌↔◌, ◌⊎◌, ap, ◌∙◌, true, Bool, Option, none, some, ◌==◌,
  ◌&&◌, not, leb,
}
use atangyldb.Rc.{Result, ok, err, record_invalid_key}
use atangyldb.Trx.{Rid}
use atangyldb.BplusTree.{
  IndexPool, IndexPage, IndexNode, Floats, Index, Key, get_page, read_node, write_node, mark, unpin,
  header_of,
}
use atangyldb.BplusTree.Compare.{cmp_key, is_eq}
use atangyldb.BplusTree.Arrays.{scan_until-Stops}
use atangyldb.BplusTree.Node.{equal_position, delete_at}
use atangyldb.BplusTree.Order.{IsOrder}
use atangyldb.BplusTree.Pages.{IsIndexPool, Store, raise, replace, pages}
use atangyldb.BplusTree.Search.{find_leaf}
use atangyldb.BplusTree.Delete.{min_key, shrink_root, delete_entry_internal}
use atangyldb.BplusTree.Tree.{HasEntry}
use atangyldb.BplusTree.Lookup.{IsIndex, IsStored, AtRoot}
use atangyldb.BplusTree.Written.{stored, stored_content}
use atangyldb.BplusTree.Deletion.Shrunk.{lesser}

module _ (pool : IndexPool) (laws : IsIndexPool pool) (fl : Floats) where
  abbrev I : Type 0
  I = Index pool.State

  abbrev cmp : I → Key → Key → Ordering
  cmp t = cmp_key fl t.file_header

  -- What `delete_entry` did: the index has no entry with the key, and nothing changes but a pin of the
  -- leaf's page, or it has the entries with other keys.
  abbrev pub DeleteOutcome : I → ℕ → Key → Result (Unit {0}) × I → pool.State → ℕ → Type 0
  DeleteOutcome t level key out s leaf =
      ((out ≡ (err record_invalid_key, record t { pool = s }))
        × ((r : Rid) → ¬ IsStored pool laws fl t level key r)
        × (laws.content s ≡ laws.content t.pool)
        × (laws.pins s ≡ raise (laws.pins t.pool) t.file_id leaf))
      ⊎ ((out ≡ (ok tt, record t { pool = s }))
          × ((r : Rid) × IsStored pool laws fl t level key r)
          × IsIndex pool laws fl (record t { pool = s }) level
          × ((k : Key) (r : Rid)
              → IsStored pool laws fl (record t { pool = s }) level k r
                ↔ (IsStored pool laws fl t level k r × (cmp t k key ≢ eq)))
          × (laws.pins s ≡ laws.pins t.pool))

  abbrev HasRoom : IndexNode → I → Type 0
  HasRoom n t = (n.parent ≡ none) ⊎ (min_key t.file_header.order true < n.key_num)

  -- `delete_entry_internal` at the leaf, which is `s₂` after it was got from `s₁`.
  module _ (levels level leaf : ℕ) (key : Key) (t : I) (s₁ s₂ : pool.State)
      (order : IsOrder (cmp t)) (tree : IsIndex pool laws fl t level)
      (r : AtRoot pool laws fl t level key leaf)
      (got : pool.get_this_page t.file_id leaf s₁ ≡ (ok tt, s₂))
      (same : laws.content s₂ ≡ laws.content t.pool)
      (pins : laws.pins s₂ ≡ raise (laws.pins t.pool) t.file_id leaf) where
    abbrev out : Result (Unit {0}) × I
    out = delete_entry_internal pool fl (suc levels) leaf key (record t { pool = s₁ })

    here : laws.content s₂ t.file_id leaf ≡ some r.page
    here = ap (λ (c : Store). c t.file_id leaf) same ∙ r.here

    abbrev less : IndexPage
    less = lesser pool laws fl t key r.page

    abbrev s₃ : pool.State
    s₃ = stored pool laws t leaf less s₂

    written : laws.content s₃ ≡ replace (laws.content t.pool) t.file_id leaf (some less)
    written =
        stored_content pool laws t leaf r.page less s₂ here
        ∙ ap (λ (c : Store). replace c t.file_id leaf (some less)) same
