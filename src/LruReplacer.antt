-- ===== src/LruReplacer.antt =====
-- storage/default/lru_replacer.cpp. `cache_list_` is a list of nodes, and `cache_map_` takes a
-- frame id to an iterator, which is the identity of a node: each `push_front` makes a node with a
-- new identity. The head of the list is its front.
pub mod Nodes
pub mod Refine
pub mod Members
use atangyldb.Base.{
  ℕ, suc, ◌+◌, ◌-◌, Bool, true, false, Option, none, some, List, [], ◌∷◌, if◌then◌else◌, ◌==◌, ltb,
}

pub record Node : Type 0 where
  pub id : ℕ
  pub frame : ℕ

pub record LruReplacer : Type 0 where
  pub cache_map : ℕ → Option ℕ
  pub cache_list : List Node
  pub size : ℕ
  pub capacity : ℕ
  pub next_id : ℕ

-- `cache_map_[frame_id] = it` with `some it`, `cache_map_.erase(frame_id)` with `none`
unfoldable pub update_map : (ℕ → Option ℕ) → ℕ → Option ℕ → ℕ → Option ℕ
update_map m f v g = if f == g then v else m g

-- `cache_list_.erase(it)`
unfoldable pub erase_node : ℕ → List Node → List Node
erase_node it [] = []
erase_node it (n ∷ ns) = if n.id == it then ns else n ∷ erase_node it ns

-- `cache_list_.back()`; of an empty list it is undefined, here 0
unfoldable pub back : List Node → ℕ
back [] = 0
back (n ∷ []) = n.frame
back (n ∷ m ∷ ns) = back (m ∷ ns)

-- `cache_list_.pop_back()`; of an empty list it is undefined, here no change
unfoldable pub pop_back : List Node → List Node
pop_back [] = []
pop_back (n ∷ []) = []
pop_back (n ∷ m ∷ ns) = n ∷ pop_back (m ∷ ns)

unfoldable pub new_replacer : ℕ → LruReplacer
new_replacer num_pages = record {
  cache_map = λ _. none;
  cache_list = [];
  size = 0;
  capacity = num_pages;
  next_id = 0;
}

-- Erase the node at the back and its entry in the map.
unfoldable pub evict : LruReplacer → LruReplacer
unfolding update_map back pop_back
evict r = record r {
  cache_map = update_map r.cache_map (back r.cache_list) none;
  cache_list = pop_back r.cache_list;
  size = r.size - 1;
}

-- `none` is the result `false`.
unfoldable pub victim : LruReplacer → Option ℕ × LruReplacer
unfolding evict
victim r = if r.size == 0 then (none, r) else (some (back r.cache_list), evict r)

unfoldable pub pin : LruReplacer → ℕ → LruReplacer
unfolding update_map erase_node
pin r f = elim (r.cache_map f) [
  | none ↦ r
  | some it ↦ record r {
    cache_map = update_map r.cache_map f none;
    cache_list = erase_node it r.cache_list;
    size = r.size - 1;
  }
]

unfoldable pub push_front : LruReplacer → ℕ → LruReplacer
unfolding update_map
push_front r f = record r {
  cache_map = update_map r.cache_map f (some r.next_id);
  cache_list = record { id = r.next_id; frame = f } ∷ r.cache_list;
  size = r.size + 1;
  next_id = suc r.next_id;
}

-- The first test of `Unpin`.
unfoldable pub enlist : LruReplacer → ℕ → LruReplacer
unfolding push_front
enlist r f = elim (r.cache_map f) [ none ↦ push_front r f | some it ↦ r ]

-- The second test of `Unpin`.
unfoldable pub trim : LruReplacer → LruReplacer
unfolding evict
trim r = if ltb r.capacity r.size then evict r else r

unfoldable pub unpin : LruReplacer → ℕ → LruReplacer
unfolding enlist trim
unpin r f = trim (enlist r f)
