-- ===== src/BplusTree/Deletion/Steps.antt =====
-- The steps of `delete_entry` of bplus_tree.cpp at a leaf that keeps enough keys.
use Prim.Native.Nat.{Ordering}
use Prim.Native.Nat.Ordering.{eq}
use atangyldb.Base.{
  ℕ, suc, ◌≤◌, ◌<◌, ◌≡◌, ◌⊎◌, refl, ap, inl, inr, true, false, Bool, Option, none, some,
  if◌then◌else◌, ◌==◌, ◌&&◌, not, ltb, leb, arith,
}
use atangyldb.Memory.{Bytes}
use atangyldb.Rc.{ok, err, record_invalid_key}
use atangyldb.Trx.{Rid}
use atangyldb.BplusTree.{
  IndexPool, IndexPage, IndexNode, Floats, Index, Key, get_page, read_node, write_node, mark, unpin,
  header_of,
}
use atangyldb.BplusTree.Compare.{cmp_key, is_eq}
use atangyldb.BplusTree.Arrays.{scan_until-Stops}
use atangyldb.BplusTree.Node.{equal_position, delete_at}
use atangyldb.BplusTree.Pages.{IsIndexPool}
use atangyldb.BplusTree.Search.{key_of, find_leaf}
use atangyldb.BplusTree.Delete.{
  min_key, delete_entry_from_node, shrink_root, delete_entry_internal, delete_entry,
}
use atangyldb.BplusTree.Written.{stored}
use atangyldb.BplusTree.Deletion.Shrunk.{lesser}

if_true : {A B : Type 0} {b : Bool} (f g : A → B) (a : A) → b ≡ true → (if b then f else g) a ≡ f a
if_true f g a h = ap (λ c. (if c then f else g) a) h

module _ (pool : IndexPool) (laws : IsIndexPool pool) (fl : Floats) where
  abbrev I : Type 0
  I = Index pool.State

  abbrev cmp : I → Key → Key → Ordering
  cmp t = cmp_key fl t.file_header

  abbrev pub pos_of : I → Key → IndexPage → ℕ
  pos_of t key page = equal_position (cmp t) key page.node

  pub delete_entry_from_node_run :
      (leaf : ℕ) (key : Key) (t : I) (s : pool.State) (page : IndexPage)
      → pool.get_this_page t.file_id leaf t.pool ≡ (ok tt, s)
      → pool.page_at s t.file_id leaf ≡ page
      → delete_entry_from_node pool fl leaf key t ≡ (
          if ltb (pos_of t key page) page.node.key_num
          then (
            ok tt,
            record t { pool = stored pool laws t leaf (lesser pool laws fl t key page) s },
          )
          else (err record_invalid_key, record t { pool = s }))
  unfolding delete_entry_from_node get_page read_node write_node mark unpin header_of
  delete_entry_from_node_run leaf key t s page got shown =
      rw (delete_entry_from_node, got, shown) (ground arith)

  -- Nothing more is done to a leaf that is the root or has enough keys.
  abbrev pub IsEnough : I → IndexNode → Type 0
  IsEnough t n = (n.parent ≡ none) ⊎ (min_key t.file_header.order true ≤ n.key_num)

  pub delete_entry_internal_missing :
      (levels leaf : ℕ) (key : Key) (t t' : I)
      → delete_entry_from_node pool fl leaf key t ≡ (err record_invalid_key, t')
      → delete_entry_internal pool fl (suc levels) leaf key t ≡ (err record_invalid_key, t')
  unfolding delete_entry_internal
  delete_entry_internal_missing levels leaf key t t' missing = rw missing refl

  shrink_root_leaf :
      (pn : ℕ) (n : IndexNode) (t : I)
      → n.is_leaf ≡ true
      → shrink_root pool fl pn n t
        ≡ (ok tt, record t { pool = pool.unpin_page t.file_id pn t.pool })
  unfolding shrink_root unpin
  shrink_root_leaf pn n t is_leaf =
      let not_inner : n.key_num == 0 && not n.is_leaf ≡ false = ground arith in rw not_inner refl

  pub delete_entry_internal_run :
      (levels leaf : ℕ) (key : Key) (t t' : I) (s : pool.State) (page : IndexPage)
      (parent : Option ℕ)
      → delete_entry_from_node pool fl leaf key t ≡ (ok tt, t')
      → pool.get_this_page t'.file_id leaf t'.pool ≡ (ok tt, s)
      → pool.page_at s t'.file_id leaf ≡ page
      → page.node.is_leaf ≡ true
      → page.node.parent ≡ parent
      → IsEnough t' page.node
      → delete_entry_internal pool fl (suc levels) leaf key t
        ≡ (ok tt, record t' { pool = pool.unpin_page t'.file_id leaf s })
  unfolding delete_entry_internal get_page read_node unpin header_of
  delete_entry_internal_run levels leaf key t t' s page none deleted got shown is_leaf top enough =
      rw (deleted, got, shown, top, shown)
        (shrink_root_leaf leaf page.node (record t' { pool = s }) is_leaf)
  delete_entry_internal_run levels leaf key t t' s page (some parent) deleted got shown is_leaf
        below (inl top) =
      absurd (cc)
  delete_entry_internal_run levels leaf key t t' s page (some parent) deleted got shown is_leaf
        below (inr enough) =
      let node = (pool.page_at s t'.file_id leaf).node in
      let full : leb (min_key t'.file_header.order node.is_leaf) node.key_num ≡ true =
        rw (shown, is_leaf) (ground arith) in
      rw (deleted, got, shown, below) (if_true (unpin pool leaf) _ _ full)

  pub delete_entry_run :
      (levels leaf : ℕ) (attr : Bytes) (rid : Rid) (t t' : I)
      → find_leaf pool fl levels (key_of attr rid) t ≡ (ok leaf, t')
      → delete_entry pool fl levels attr rid t
        ≡ delete_entry_internal pool fl levels leaf (key_of attr rid) t'
  unfolding delete_entry
  delete_entry_run levels leaf attr rid t t' found = rw found refl

  -- The key at the position that was found.
  pub equal_at :
      (t : I) (key : Key) (page : IndexPage)
      → ltb (pos_of t key page) page.node.key_num ≡ true
      → cmp t key (page.node.keys (pos_of t key page)) ≡ eq
  unfolding equal_position
  equal_at t key page inside =
      let s = scan_until-Stops (λ i. is_eq (cmp t key (page.node.keys i))) page.node.key_num 0 in
      let same = s.at_stop (ground arith) in ground arith

  pub lesser-IsEnough :
      (t : I) (key : Key) (page : IndexPage)
      → (page.node.parent ≡ none) ⊎ (min_key t.file_header.order true < page.node.key_num)
      → IsEnough t (lesser pool laws fl t key page).node
  unfolding delete_at
  lesser-IsEnough t key page (inl top) = inl top
  lesser-IsEnough t key page (inr more) = inr (omega arith)

  pub lesser_is_leaf :
      (t : I) (key : Key) (page : IndexPage)
      → page.node.is_leaf ≡ true
      → (lesser pool laws fl t key page).node.is_leaf ≡ true
  unfolding delete_at
  lesser_is_leaf t key page is_leaf = is_leaf
