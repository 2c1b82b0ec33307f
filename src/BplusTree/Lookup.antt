-- ===== src/BplusTree/Lookup.antt =====
-- `find_leaf` of bplus_tree.cpp against the tree that the pages make up.
use Prim.Native.Nat.{Ordering}
use atangyldb.Base.{ℕ, ◌≡◌, true, Option, none, some}
use atangyldb.Trx.{Rid}
use atangyldb.BplusTree.{IndexPool, IndexPage, Floats, Index, Key}
use atangyldb.BplusTree.Compare.{cmp_key}
use atangyldb.BplusTree.Pages.{IsIndexPool, pages}
use atangyldb.BplusTree.Tree.{AtLeast, Below, IsOrdered, IsTree, HasEntry, Stored, WayDown}

-- The leaf on the page `leaf` is on the way down to the key, and has the entries of the tree under
-- `pn` that have the key.
pub record Reached (cmp : Key → Key → Ordering) (c : ℕ → Option IndexPage) (level pn : ℕ)
    (parent : Option ℕ) (lo hi : Option Key) (key : Key) (leaf : ℕ) : Type 0 where
  pub page : IndexPage
  pub here : c leaf ≡ some page
  pub is_leaf : page.node.is_leaf ≡ true
  pub leaf_parent : Option ℕ
  pub leaf_lo : Option Key
  pub leaf_hi : Option Key
  pub has_parent : page.node.parent ≡ leaf_parent
  pub ordered : IsOrdered cmp page.node leaf_lo leaf_hi
  pub at_least : AtLeast cmp leaf_lo key
  pub below : Below cmp leaf_hi key
  pub way : WayDown cmp c level pn parent lo hi leaf leaf_parent leaf_lo leaf_hi
  pub has : (rid : Rid) → Stored cmp c level pn key rid → HasEntry cmp page.node key rid
  pub stores : (rid : Rid) → HasEntry cmp page.node key rid → Stored cmp c level pn key rid

module _ (pool : IndexPool) (laws : IsIndexPool pool) (fl : Floats) where
  abbrev pub I : Type 0
  I = Index pool.State

  abbrev pub cmp : I → Key → Key → Ordering
  cmp t = cmp_key fl t.file_header

  -- The tree of the whole index has `level` levels of inner nodes.
  abbrev pub IsIndex : I → ℕ → Type 0
  IsIndex t level = IsTree (cmp t) (pages pool laws t) level t.file_header.root_page none none none

  abbrev pub IsStored : I → ℕ → Key → Rid → Type 0
  IsStored t level key rid =
      Stored (cmp t) (pages pool laws t) level t.file_header.root_page key rid

  abbrev pub AtRoot : I → ℕ → Key → ℕ → Type 0
  AtRoot t level key leaf =
      Reached (cmp t) (pages pool laws t) level t.file_header.root_page none none none key leaf
