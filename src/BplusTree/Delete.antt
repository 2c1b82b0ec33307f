-- ===== src/BplusTree/Delete.antt =====
-- Deletion from the index, bplus_tree.cpp. A call that may go up the tree takes the number of levels
-- that it may change.
use atangyldb.Base.{
  ℕ, zero, suc, ◌+◌, ◌-◌, ◌/◌, Bool, true, false, not, ◌&&◌, none, some, if◌then◌else◌, ◌==◌, ltb,
  leb,
}
use atangyldb.Memory.{Bytes}
use atangyldb.Rc.{record_invalid_key}
use atangyldb.Trx.{Rid}
use atangyldb.BplusTree.{
  IndexPool, Floats, Io, Key, IndexNode, get_page, dispose, read_node, write_node, mark, unpin,
  header_of, set_root, ◌>>=◌, ◌>>◌, pure, fail, diverge,
}
use atangyldb.BplusTree.Compare.{cmp_key}
use atangyldb.BplusTree.Node.{
  equal_position, child_position, left_position, delete_at, merge_leaf, merge_inner, append_entry,
  drop_first, prepend_key, append_child, prepend_child, drop_last, with_key, with_parent,
}
use atangyldb.BplusTree.Search.{key_of, find_leaf}
use atangyldb.BplusTree.Insert.{adopt, adopt_from}

-- `min_key`: the keys that a node other than the root has at least.
unfoldable pub min_key : ℕ → Bool → ℕ
min_key order is_leaf = if is_leaf then order / 2 else (order + 1) / 2 - 1

module _ (pool : IndexPool) (fl : Floats) where
  abbrev pub S : Type 0
  S = pool.State

  -- `delete_entry_from_node`. A page that does not have the key is not given back.
  unfoldable pub delete_entry_from_node : ℕ → Key → Io S (Unit {0})
  unfolding get_page read_node write_node mark unpin header_of
  delete_entry_from_node pn key = do
    get_page pool pn
    node ← read_node pool pn
    h ← header_of pool
    let pos = equal_position (cmp_key fl h) key node
    let deleted = do write_node pool pn (delete_at pos node); mark pool pn; unpin pool pn
    if ltb pos node.key_num then deleted else fail record_invalid_key

  -- What a merge does to go on in the parent: `delete_entry_internal` with the levels that are left.
  abbrev pub FromParent : Type 0
  FromParent = ℕ → Key → Io S (Unit {0})

  -- `node->parent` as the page to get.
  unfoldable pub parent_page : IndexNode → Io S ℕ
  parent_page n = elim n.parent [ none ↦ diverge | some pn ↦ pure pn ]

  -- `coalesce_node`. The children that an inner left node gets have it as their parent.
  unfoldable pub coalesce_node : FromParent → ℕ → ℕ → Io S (Unit {0})
  unfolding get_page dispose read_node write_node mark unpin header_of parent_page adopt_from
  coalesce_node from_parent left_pn right_pn = do
    get_page pool left_pn
    left ← read_node pool left_pn
    get_page pool right_pn
    right ← read_node pool right_pn
    parent_pn ← parent_page left
    get_page pool parent_pn
    parent ← read_node pool parent_pn
    h ← header_of pool
    let separator = parent.keys (left_position parent left_pn)
    let merge_leaves = write_node pool left_pn (merge_leaf h.order left right)
    let merge_inners = do
      write_node pool left_pn (merge_inner separator left right)
      adopt_from pool fl left_pn (left.key_num + 1) (right.key_num + 1)
    if left.is_leaf then merge_leaves else merge_inners
    mark pool left_pn
    unpin pool left_pn
    unpin pool right_pn
    dispose pool right_pn
    unpin pool parent_pn
    from_parent parent_pn separator

  -- `redistribute_nodes` between leaves. The right leaf that takes a key keeps its first record id.
  unfoldable pub redistribute_leaves : ℕ → ℕ → ℕ → ℕ → Io S (Unit {0})
  unfolding read_node write_node header_of
  redistribute_leaves left_pn right_pn parent_pn k = do
    left ← read_node pool left_pn
    right ← read_node pool right_pn
    parent ← read_node pool parent_pn
    h ← header_of pool
    let right_less = drop_first right
    let to_left = do
      write_node pool left_pn (append_entry (right.keys 0) (right.rids 0) left)
      write_node pool right_pn right_less
      write_node pool parent_pn (with_key k (right_less.keys 0) parent)
    let last = left.keys (left.key_num - 1)
    let to_right = do
      write_node pool right_pn (prepend_key last right)
      write_node pool left_pn (drop_last left)
      write_node pool parent_pn (with_key k last parent)
    if ltb left.key_num (min_key h.order true) then to_left else to_right

  -- `redistribute_nodes` between inner nodes.
  unfoldable pub redistribute_inners : ℕ → ℕ → ℕ → ℕ → Io S (Unit {0})
  unfolding read_node write_node header_of adopt
  redistribute_inners left_pn right_pn parent_pn k = do
    left ← read_node pool left_pn
    right ← read_node pool right_pn
    parent ← read_node pool parent_pn
    h ← header_of pool
    let to_left = do
      write_node pool left_pn (append_child (parent.keys k) (right.rids 0) left)
      write_node pool parent_pn (with_key k (right.keys 0) parent)
      write_node pool right_pn (drop_first right)
      adopt pool fl left_pn (right.rids 0).page_num
    let child = left.rids left.key_num
    let to_right = do
      write_node pool right_pn (prepend_child (parent.keys k) child right)
      write_node pool parent_pn (with_key k (left.keys (left.key_num - 1)) parent)
      write_node pool left_pn (drop_last left)
      adopt pool fl right_pn child.page_num
    if ltb left.key_num (min_key h.order false) then to_left else to_right

  unfoldable pub redistribute_nodes : ℕ → ℕ → Io S (Unit {0})
  unfolding get_page read_node mark unpin parent_page redistribute_leaves redistribute_inners
  redistribute_nodes left_pn right_pn = do
    get_page pool left_pn
    left ← read_node pool left_pn
    get_page pool right_pn
    parent_pn ← parent_page left
    get_page pool parent_pn
    parent ← read_node pool parent_pn
    let k = left_position parent left_pn
    let leaves = redistribute_leaves left_pn right_pn parent_pn k
    let inners = redistribute_inners left_pn right_pn parent_pn k
    if left.is_leaf then leaves else inners
    mark pool left_pn
    unpin pool left_pn
    mark pool right_pn
    unpin pool right_pn
    mark pool parent_pn
    unpin pool parent_pn

  -- `delete_entry_internal` at the root: the only child of a root without keys becomes the root.
  unfoldable pub shrink_root : ℕ → IndexNode → Io S (Unit {0})
  unfolding get_page read_node write_node mark unpin set_root dispose
  shrink_root pn node =
      let child = (node.rids 0).page_num in
      let shrink = (do
        get_page pool child
        top ← read_node pool child
        write_node pool child (with_parent none top)
        mark pool child
        unpin pool child
        set_root pool child
        unpin pool pn
        dispose pool pn) in
      if node.key_num == 0 && not node.is_leaf then shrink else unpin pool pn

  -- `delete_entry_internal` when the node on the page `pn` has too few keys: a neighbour gives one, or
  -- the two become one.
  unfoldable pub refill : FromParent → ℕ → ℕ → IndexNode → Io S (Unit {0})
  unfolding get_page read_node unpin header_of redistribute_nodes coalesce_node
  refill from_parent pn parent_pn node = do
    get_page pool parent_pn
    parent ← read_node pool parent_pn
    h ← header_of pool
    let index = child_position parent pn
    let other_pn = (parent.rids (if index == 0 then 1 else index - 1)).page_num
    get_page pool other_pn
    other ← read_node pool other_pn
    unpin pool pn
    unpin pool parent_pn
    unpin pool other_pn
    let left_pn = if index == 0 then pn else other_pn
    let right_pn = if index == 0 then other_pn else pn
    let share = redistribute_nodes left_pn right_pn
    let merge = coalesce_node from_parent left_pn right_pn
    if ltb (min_key h.order node.is_leaf) other.key_num then share else merge

  unfoldable pub delete_entry_internal : ℕ → FromParent
  unfolding delete_entry_from_node get_page read_node unpin header_of shrink_root refill
  delete_entry_internal zero pn key = diverge
  delete_entry_internal (suc levels) pn key = do
    delete_entry_from_node pn key
    get_page pool pn
    node ← read_node pool pn
    h ← header_of pool
    let up = λ (parent : ℕ). refill (delete_entry_internal levels) pn parent node
    let enough = unpin pool pn
    elim node.parent [
      | none ↦ shrink_root pn node
      | some parent ↦ if leb (min_key h.order node.is_leaf) node.key_num then enough else up parent
    ]

  unfoldable pub delete_entry : ℕ → Bytes → Rid → Io S (Unit {0})
  unfolding find_leaf delete_entry_internal
  delete_entry levels attr rid = do
    leaf ← find_leaf pool fl levels (key_of attr rid)
    delete_entry_internal levels leaf (key_of attr rid)
