-- ===== src/BplusTree/Node.antt =====
-- What the handler in bplus_tree.cpp does to the node of a page, between getting the page and
-- giving it back. A loop that moves keys and record ids in one body is a loop for each array here.
use Prim.Native.Nat.{Ordering}
use atangyldb.Base.{
  ℕ, ◌+◌, ◌-◌, ◌/◌, Bool, false, not, ◌&&◌, none, Option, if◌then◌else◌, ◌==◌, ltb,
}
use atangyldb.Trx.{Rid}
use atangyldb.BplusTree.{Key, IndexNode, minus_one}
use atangyldb.BplusTree.Arrays.{scan_until, put, shift_up, shift_down, copy_run, spread}
use atangyldb.BplusTree.Compare.{is_lt, is_gt, is_eq}

-- A reference to a page: the slot is -1.
abbrev pub to_page : ℕ → Rid
to_page pn = record { page_num = pn; slot_num = minus_one }

-- `node->rids[order - 1].page_num`
abbrev pub next_leaf : ℕ → IndexNode → ℕ
next_leaf order n = (n.rids (order - 1)).page_num

-- The loop that looks for the child with the page `pn`; also `key_num + 1` if there is none.
unfoldable pub child_position : IndexNode → ℕ → ℕ
unfolding scan_until
child_position n pn = scan_until (λ i. (n.rids i).page_num == pn) (n.key_num + 1) 0

-- The same loop where it stops at `key_num`.
unfoldable pub left_position : IndexNode → ℕ → ℕ
unfolding scan_until
left_position n pn = scan_until (λ i. (n.rids i).page_num == pn) n.key_num 0

module _ (cmp : Key → Key → Ordering) where
  -- The loop of `find_leaf` that looks for the child: the first key that is greater.
  unfoldable pub upper_position : Key → IndexNode → ℕ
  unfolding scan_until
  upper_position key n = scan_until (λ i. is_lt (cmp key (n.keys i))) n.key_num 0

  -- The loop of `insert_into_leaf`: the first key that is not less.
  unfoldable pub lower_position : Key → IndexNode → ℕ
  unfolding scan_until
  lower_position key n = scan_until (λ i. not (is_gt (cmp key (n.keys i)))) n.key_num 0

  -- The loop of `delete_entry_from_node` and `get_entry`: the first key that is equal.
  unfoldable pub equal_position : Key → IndexNode → ℕ
  unfolding scan_until
  equal_position key n = scan_until (λ i. is_eq (cmp key (n.keys i))) n.key_num 0

  -- `insert_into_leaf` stops with RECORD_DUPLICATE_KEY.
  unfoldable pub is_duplicate : Key → IndexNode → Bool
  unfolding lower_position
  is_duplicate key n =
      let pos = lower_position key n in ltb pos n.key_num && is_eq (cmp key (n.keys pos))

-- `insert_into_leaf`, at the position that it found.
unfoldable pub insert_at : ℕ → Key → Rid → IndexNode → IndexNode
unfolding put shift_up
insert_at pos key rid n = record n {
  keys = put (shift_up n.keys pos (n.key_num - pos)) pos key;
  rids = put (shift_up n.rids pos (n.key_num - pos)) pos rid;
  key_num = n.key_num + 1;
}

-- `insert_intern_node`, at the position of the left child.
unfoldable pub insert_child_at : ℕ → Key → ℕ → IndexNode → IndexNode
unfolding put shift_up
insert_child_at pos key right n = record n {
  keys = put (shift_up n.keys pos (n.key_num - pos)) pos key;
  rids = put (shift_up n.rids (pos + 1) (n.key_num - pos)) (pos + 1) (to_page right);
  key_num = n.key_num + 1;
}

-- The arrays of `order` keys and of record ids that a split fills before it distributes them.
pub record Buffer : Type 0 where
  pub keys : ℕ → Key
  pub rids : ℕ → Rid

-- A full leaf and one entry more, in new memory.
unfoldable pub gather : Buffer → ℕ → Key → Rid → IndexNode → Buffer
unfolding put spread
gather fresh pos key rid n = record {
  keys = put (spread pos fresh.keys 0 n.keys 0 n.key_num) pos key;
  rids = put (spread pos fresh.rids 0 n.rids 0 n.key_num) pos rid;
}

-- The lower half of a split leaf. Its next leaf is the new one.
unfoldable pub lower_leaf : ℕ → ℕ → Buffer → IndexNode → IndexNode
unfolding put copy_run
lower_leaf order new_pn all n = record n {
  keys = copy_run n.keys 0 all.keys 0 (order / 2);
  rids = put (copy_run n.rids 0 all.rids 0 (order / 2)) (order - 1) (to_page new_pn);
  key_num = order / 2;
}

-- The upper half, on the new page. Its next leaf is that of the old one, which is read after the
-- old one has got its part.
unfoldable pub upper_leaf : ℕ → Buffer → IndexNode → IndexNode → IndexNode
unfolding put copy_run
upper_leaf order all n new_node =
    let split = order / 2 in
    let last = copy_run n.rids 0 all.rids 0 split (order - 1) in
    record new_node {
      keys = copy_run new_node.keys 0 all.keys split (order - split);
      rids = put (copy_run new_node.rids 0 all.rids split (order - split)) (order - 1) last;
      key_num = order - split;
    }

-- A full inner node and one child more.
unfoldable pub gather_child : Buffer → ℕ → Key → ℕ → IndexNode → Buffer
unfolding put spread
gather_child fresh pos key right n = record {
  keys = put (spread pos fresh.keys 0 n.keys 0 n.key_num) pos key;
  rids = put (spread (pos + 1) fresh.rids 0 n.rids 0 (n.key_num + 1)) (pos + 1) (to_page right);
}

-- `split` of `insert_intern_node_after_split`; the key before it goes up to the parent.
abbrev pub inner_split : ℕ → ℕ
inner_split order = (order + 1) / 2

unfoldable pub lower_inner : ℕ → Buffer → IndexNode → IndexNode
unfolding put copy_run
lower_inner order all n =
    let kept = inner_split order - 1 in
    record n {
      keys = copy_run n.keys 0 all.keys 0 kept;
      rids = put (copy_run n.rids 0 all.rids 0 kept) kept (all.rids kept);
      key_num = kept;
    }

unfoldable pub upper_inner : ℕ → Buffer → IndexNode → IndexNode
unfolding put copy_run
upper_inner order all new_node =
    let split = inner_split order in
    let moved = order - split in
    record new_node {
      keys = copy_run new_node.keys 0 all.keys split moved;
      rids = put (copy_run new_node.rids 0 all.rids split moved) moved (all.rids (split + moved));
      key_num = moved;
    }

-- `insert_into_new_root`, on the new page.
unfoldable pub root_over : ℕ → Key → ℕ → IndexNode → IndexNode
unfolding put
root_over left key right n = record n {
  is_leaf = false;
  key_num = 1;
  parent = none;
  keys = put n.keys 0 key;
  rids = put (put n.rids 0 (to_page left)) 1 (to_page right);
}

-- `delete_entry_from_node`, at the position of the key. An inner node loses the child behind it.
unfoldable pub delete_at : ℕ → IndexNode → IndexNode
unfolding shift_down
delete_at pos n =
    let after = n.key_num - 1 - pos in
    record n {
      keys = shift_down n.keys pos after;
      rids = if n.is_leaf then shift_down n.rids pos after else shift_down n.rids (pos + 1) after;
      key_num = n.key_num - 1;
    }

-- `coalesce_node`: what the left node becomes, `separator` being the key between the two.
unfoldable pub merge_leaf : ℕ → IndexNode → IndexNode → IndexNode
unfolding put copy_run
merge_leaf order left right = record left {
  keys = copy_run left.keys left.key_num right.keys 0 right.key_num;
  rids =
      put (copy_run left.rids left.key_num right.rids 0 right.key_num) (order - 1)
        (right.rids (order - 1));
  key_num = left.key_num + right.key_num;
}

unfoldable pub merge_inner : Key → IndexNode → IndexNode → IndexNode
unfolding put copy_run
merge_inner separator left right =
    let start = left.key_num + 1 in
    record left {
      keys = copy_run (put left.keys left.key_num separator) start right.keys 0 right.key_num;
      rids =
          put (copy_run left.rids start right.rids 0 right.key_num) (start + right.key_num)
            (right.rids right.key_num);
      key_num = start + right.key_num;
    }

-- `redistribute_nodes`: the left node takes the first entry of the right one, or the right one takes
-- the last of the left one.
unfoldable pub append_entry : Key → Rid → IndexNode → IndexNode
unfolding put
append_entry key rid n = record n {
  keys = put n.keys n.key_num key;
  rids = put n.rids n.key_num rid;
  key_num = n.key_num + 1;
}

unfoldable pub drop_first : IndexNode → IndexNode
unfolding shift_down
drop_first n = record n {
  keys = shift_down n.keys 0 (n.key_num - 1);
  rids = shift_down n.rids 0 (n.key_num - 1);
  key_num = n.key_num - 1;
}

-- The right leaf takes a key in front; its record ids move up, and the first one stays as it was.
unfoldable pub prepend_key : Key → IndexNode → IndexNode
unfolding put shift_up
prepend_key key n = record n {
  keys = put (shift_up n.keys 0 n.key_num) 0 key;
  rids = shift_up n.rids 0 n.key_num;
  key_num = n.key_num + 1;
}

-- The inner left node takes the separator, and the first child of the right one.
unfoldable pub append_child : Key → Rid → IndexNode → IndexNode
unfolding put
append_child key rid n = record n {
  keys = put n.keys n.key_num key;
  rids = put n.rids (n.key_num + 1) rid;
  key_num = n.key_num + 1;
}

-- The inner right node takes the separator, and the last child of the left one. The record ids move
-- up as many as there are keys.
unfoldable pub prepend_child : Key → Rid → IndexNode → IndexNode
unfolding put shift_up
prepend_child key rid n = record n {
  keys = put (shift_up n.keys 0 n.key_num) 0 key;
  rids = put (shift_up n.rids 0 n.key_num) 0 rid;
  key_num = n.key_num + 1;
}

abbrev pub drop_last : IndexNode → IndexNode
drop_last n = record n { key_num = n.key_num - 1 }

abbrev pub with_key : ℕ → Key → IndexNode → IndexNode
unfolding put
with_key i key n = record n { keys = put n.keys i key }

abbrev pub with_parent : Option ℕ → IndexNode → IndexNode
with_parent parent n = record n { parent = parent }
