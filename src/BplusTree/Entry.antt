-- ===== src/BplusTree/Entry.antt =====
-- `get_entry` of bplus_tree.cpp against the tree that the pages make up.
use Prim.Native.Nat.{Ordering}
use atangyldb.Base.{ℕ, ◌≡◌, refl, ◌⊎◌, true, false, ltb, arith}
use atangyldb.Rc.{Result, ok, err, record_invalid_key}
use atangyldb.Trx.{Rid}
use atangyldb.BplusTree.{IndexPool, IndexNode, Floats, Index, Key}
use atangyldb.BplusTree.Arrays.{scan_until-Stops}
use atangyldb.BplusTree.Compare.{cmp_key, is_eq}
use atangyldb.BplusTree.Node.{equal_position}
use atangyldb.BplusTree.Pages.{IsIndexPool}
use atangyldb.BplusTree.Tree.{HasEntry}
use atangyldb.BplusTree.Lookup.{IsStored}

module _ (pool : IndexPool) (laws : IsIndexPool pool) (fl : Floats) where
  abbrev I : Type 0
  I = Index pool.State

  abbrev cmp : I → Key → Key → Ordering
  cmp t = cmp_key fl t.file_header

  -- What `get_entry` answers, and where it leaves the index.
  abbrev pub Answer : I → ℕ → Key → Result Rid × I → pool.State → Type 0
  Answer t level key out s =
      ((rid : Rid) × (out ≡ (ok rid, record t { pool = s }))
        × IsStored pool laws fl t level key rid)
      ⊎ ((out ≡ (err record_invalid_key, record t { pool = s }))
          × ((rid : Rid) → ¬ IsStored pool laws fl t level key rid))

  pub entry_at :
      (n : IndexNode) (key : Key) (order : Key → Key → Ordering)
      → (ltb (equal_position order key n) n.key_num ≡ true
          → HasEntry order n key (n.rids (equal_position order key n)))
        × (ltb (equal_position order key n) n.key_num ≡ false
            → (rid : Rid) → ¬ HasEntry order n key rid)
  unfolding equal_position
  entry_at n key order =
      let s = scan_until-Stops (λ i. is_eq (order key (n.keys i))) n.key_num 0 in
      (
        λ inside.
            let same = s.at_stop (ground arith) in
            (equal_position order key n, ground arith, ground arith, refl),
        λ past rid (i, lt, same, _).
            let differs = s.before i (omega arith) (ground (arith, s.most)) in ground arith,
      )
