-- ===== src/BplusTree/Insert.antt =====
-- Insertion into the index, bplus_tree.cpp. A call that may go up the tree takes the number of levels
-- that it may split.
use atangyldb.Base.{ℕ, zero, suc, ◌+◌, ◌-◌, true, false, Option, none, some, if◌then◌else◌, ltb}
use atangyldb.Memory.{Bytes}
use atangyldb.Rc.{Result, undefined, record_closed, record_duplicate_key}
use atangyldb.Trx.{Rid}
use atangyldb.BplusTree.{
  IndexPool, Floats, Io, Key, get_page, new_page, read_node, write_node, mark, unpin, header_of,
  set_root, ◌>>=◌, ◌>>◌, pure, fail, diverge,
}
use atangyldb.BplusTree.Compare.{cmp_key}
use atangyldb.BplusTree.Node.{
  Buffer, upper_position, lower_position, is_duplicate, child_position, insert_at, insert_child_at,
  gather, lower_leaf, upper_leaf, gather_child, lower_inner, upper_inner, inner_split, root_over,
  with_parent,
}
use atangyldb.BplusTree.Search.{key_of, find_leaf}

module _ (pool : IndexPool) (fl : Floats) where
  abbrev pub S : Type 0
  S = pool.State

  abbrev pub fresh : Buffer
  fresh = record { keys = pool.fresh_keys; rids = pool.fresh_rids }

  -- `insert_into_leaf`. The page of a leaf that has the key already is not given back.
  unfoldable pub insert_into_leaf : ℕ → Key → Rid → Io S (Unit {0})
  unfolding get_page read_node write_node mark unpin header_of
  insert_into_leaf leaf key rid = do
    get_page pool leaf
    node ← read_node pool leaf
    h ← header_of pool
    let cmp = cmp_key fl h
    let placed = do
      write_node pool leaf (insert_at (lower_position cmp key node) key rid node)
      mark pool leaf
      unpin pool leaf
    if is_duplicate cmp key node then fail record_duplicate_key else placed

  -- `child_node->parent = parent` on the page of a child.
  unfoldable pub adopt : ℕ → ℕ → Io S (Unit {0})
  unfolding get_page read_node write_node mark unpin
  adopt parent child = do
    get_page pool child
    node ← read_node pool child
    write_node pool child (with_parent (some parent) node)
    mark pool child
    unpin pool child

  -- The loop over `n` children from the `i`th on, each read from the node on the page `pn`.
  unfoldable pub adopt_from : ℕ → ℕ → ℕ → Io S (Unit {0})
  unfolding adopt read_node
  adopt_from pn i zero = pure tt
  adopt_from pn i (suc n) = do
    node ← read_node pool pn
    adopt pn (node.rids i).page_num
    adopt_from pn (i + 1) n

  unfoldable pub insert_into_new_root : ℕ → Key → ℕ → Io S (Unit {0})
  unfolding new_page read_node write_node mark unpin set_root
  insert_into_new_root left key right = do
    root ← new_page pool
    node ← read_node pool root
    write_node pool root (root_over left key right node)
    mark pool root
    unpin pool root
    adopt root left
    adopt root right
    set_root pool root

  unfoldable pub insert_intern_node : ℕ → ℕ → ℕ → Key → Io S (Unit {0})
  unfolding get_page read_node write_node mark unpin
  insert_intern_node pn left right key = do
    get_page pool pn
    node ← read_node pool pn
    write_node pool pn (insert_child_at (child_position node left) key right node)
    mark pool pn
    unpin pool pn

  -- What a split does to go on in the parent: `insert_into_parent` with the levels that are left.
  abbrev pub IntoParent : Type 0
  IntoParent = Option ℕ → ℕ → Key → ℕ → Io S (Unit {0})

  unfoldable pub insert_intern_node_after_split : IntoParent → ℕ → ℕ → ℕ → Key → Io S (Unit {0})
  unfolding get_page new_page read_node write_node mark unpin header_of
  insert_intern_node_after_split into_parent pn left right key = do
    get_page pool pn
    node ← read_node pool pn
    new_pn ← new_page pool
    blank ← read_node pool new_pn
    h ← header_of pool
    let all = gather_child fresh (child_position node left) key right node
    let new_node = record blank { is_leaf = false; parent = node.parent }
    write_node pool pn (lower_inner h.order all node)
    write_node pool new_pn (upper_inner h.order all new_node)
    adopt_from new_pn 0 (h.order - inner_split h.order + 1)
    mark pool pn
    unpin pool pn
    mark pool new_pn
    unpin pool new_pn
    into_parent node.parent pn (all.keys (inner_split h.order - 1)) new_pn

  unfoldable pub insert_into_parent : ℕ → IntoParent
  unfolding get_page read_node unpin header_of
  insert_into_parent zero parent left key right = diverge
  insert_into_parent (suc levels) none left key right = insert_into_new_root left key right
  insert_into_parent (suc levels) (some pn) left key right = do
    get_page pool pn
    node ← read_node pool pn
    h ← header_of pool
    unpin pool pn
    let split = insert_intern_node_after_split (insert_into_parent levels) pn left right key
    if ltb node.key_num (h.order - 1) then insert_intern_node pn left right key else split

  -- `insert_into_leaf_after_split`. The position is the one after the keys that are not greater: a key
  -- that the leaf has already is put in once more.
  unfoldable pub insert_into_leaf_after_split : ℕ → ℕ → Key → Rid → Io S (Unit {0})
  unfolding get_page new_page read_node write_node mark unpin header_of
  insert_into_leaf_after_split levels leaf key rid = do
    get_page pool leaf
    node ← read_node pool leaf
    new_pn ← new_page pool
    blank ← read_node pool new_pn
    h ← header_of pool
    let all = gather fresh (upper_position (cmp_key fl h) key node) key rid node
    let new_node = record blank { is_leaf = true; parent = node.parent }
    let upper = upper_leaf h.order all node new_node
    write_node pool leaf (lower_leaf h.order new_pn all node)
    write_node pool new_pn upper
    mark pool leaf
    unpin pool leaf
    mark pool new_pn
    unpin pool new_pn
    insert_into_parent levels node.parent leaf (upper.keys 0) new_pn

  -- A call whose result is thrown away.
  abbrev pub ignore : Io S (Unit {0}) → Io S (Unit {0})
  ignore m t = elim (m t).0 [ undefined ↦ m t | _ ↦ (Result.ok tt, (m t).1) ]

  -- `insert_entry` with its key. After a split it returns SUCCESS, whatever the split returned.
  unfoldable pub insert_key : ℕ → Key → Rid → Io S (Unit {0})
  unfolding get_page read_node unpin header_of
  insert_key levels key rid = do
    leaf ← find_leaf pool fl levels key
    get_page pool leaf
    node ← read_node pool leaf
    h ← header_of pool
    unpin pool leaf
    let split = ignore (insert_into_leaf_after_split levels leaf key rid)
    if ltb node.key_num (h.order - 1) then insert_into_leaf leaf key rid else split

  unfoldable pub insert_entry : ℕ → Bytes → Rid → Io S (Unit {0})
  insert_entry levels attr rid t =
      if t.is_open then insert_key levels (key_of attr rid) rid t else fail record_closed t
