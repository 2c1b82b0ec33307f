-- ===== src/BplusTree/Search.antt =====
-- The searches of BplusTreeHandler in bplus_tree.cpp. A descent takes the number of levels that it
-- may go down, and a walk along the leaves the number of leaves.
use Prim.Native.Nat.{Ordering}
use atangyldb.Base.{ℕ, zero, suc, Bool, not, true, false, if◌then◌else◌, ◌==◌, ltb}
use atangyldb.Memory.{Bytes}
use atangyldb.Rc.{record_invalid_key, record_eof}
use atangyldb.Trx.{Rid}
use atangyldb.BplusTree.{
  IndexPool, Floats, Io, Key, CompOp, equal_to, less_equal, not_equal, less_than, great_equal,
  great_than, minus_one, get_page, read_node, unpin, header_of, ◌>>=◌, ◌>>◌, pure, fail, diverge,
}
use atangyldb.BplusTree.Arrays.{scan_until}
use atangyldb.BplusTree.Compare.{compare_key, cmp_key, is_lt, is_gt}
use atangyldb.BplusTree.Node.{upper_position, equal_position, next_leaf}

-- The key that `insert_entry`, `get_entry` and `delete_entry` put together.
abbrev pub key_of : Bytes → Rid → Key
key_of attr rid = record { attr = attr; rid = rid }

-- The operators for which a scan begins at the first leaf.
abbrev pub from_first : CompOp → Bool
from_first less_than = true
from_first less_equal = true
from_first not_equal = true
from_first op = false

-- The test on a key of a leaf in `find_first_index_satisfied`.
abbrev pub begins : CompOp → Ordering → Bool
begins equal_to o = not (is_lt o)
begins great_equal o = not (is_lt o)
begins great_than o = is_gt o
begins op o = false

module _ (pool : IndexPool) (fl : Floats) where
  abbrev pub S : Type 0
  S = pool.State

  -- The loop of `find_leaf`, at a page that it has got.
  unfoldable pub descend : ℕ → Key → ℕ → Io S ℕ
  unfolding get_page read_node unpin header_of
  descend zero key pn = diverge
  descend (suc levels) key pn = do
    node ← read_node pool pn
    h ← header_of pool
    let child = (node.rids (upper_position (cmp_key fl h) key node)).page_num
    let below = do unpin pool pn; get_page pool child; descend levels key child
    if node.is_leaf then (unpin pool pn >> pure pn) else below

  unfoldable pub find_leaf : ℕ → Key → Io S ℕ
  unfolding get_page descend header_of
  find_leaf levels key = do
    h ← header_of pool
    get_page pool h.root_page
    descend levels key h.root_page

  -- `get_entry`. The page of the leaf is not given back.
  unfoldable pub get_entry : ℕ → Bytes → Rid → Io S Rid
  unfolding get_page read_node header_of
  get_entry levels attr rid = do
    leaf ← find_leaf levels (key_of attr rid)
    get_page pool leaf
    node ← read_node pool leaf
    h ← header_of pool
    let pos = equal_position (cmp_key fl h) (key_of attr rid) node
    if ltb pos node.key_num then pure (node.rids pos) else fail record_invalid_key

  unfoldable pub descend_first : ℕ → ℕ → Io S ℕ
  unfolding get_page read_node unpin
  descend_first zero pn = diverge
  descend_first (suc levels) pn = do
    node ← read_node pool pn
    let child = (node.rids 0).page_num
    let below = do unpin pool pn; get_page pool child; descend_first levels child
    if node.is_leaf then (unpin pool pn >> pure pn) else below

  unfoldable pub get_first_leaf_page : ℕ → Io S ℕ
  unfolding get_page descend_first header_of
  get_first_leaf_page levels = do
    h ← header_of pool
    get_page pool h.root_page
    descend_first levels h.root_page

  -- The loop of `find_first_index_satisfied` over the leaves. Only the page at which it stops is given
  -- back; after the last leaf that is the page which was got last.
  unfoldable pub walk : ℕ → CompOp → Bytes → ℕ → Io S (ℕ × ℕ)
  unfolding get_page read_node unpin header_of
  walk zero op attr next = diverge
  walk (suc leaves) op attr next = do
    get_page pool next
    node ← read_node pool next
    h ← header_of pool
    let at = λ (i : ℕ). compare_key fl h.attr_type h.attr_length (node.keys i).attr attr
    let pos = scan_until (λ i. begins op (at i)) node.key_num 0
    let following = next_leaf h.order node
    let found = unpin pool next >> pure (next, pos)
    let last = unpin pool next >> fail record_eof
    let rest = walk leaves op attr following
    if ltb pos node.key_num then found else if following == 0 then last else rest

  -- `find_first_index_satisfied`; `find_leaf` does not return page 0, so that the loop is entered.
  unfoldable pub find_first_index_satisfied : ℕ → ℕ → CompOp → Bytes → Io S (ℕ × ℕ)
  find_first_index_satisfied levels leaves op attr =
      let least = key_of attr (record { page_num = minus_one; slot_num = minus_one }) in
      let first = (do pn ← get_first_leaf_page levels; pure (pn, 0)) in
      let searched = (do pn ← find_leaf levels least; walk leaves op attr pn) in
      if from_first op then first else searched
