-- ===== src/Tests/IndexPages.antt =====
-- A buffer pool that is a store of pages, which the index of bplus_tree.cpp may use, and a small tree.
use mathlib.Core.Path.{fun_ext}
use atangyldb.Base.{
  ℕ, ◌+◌, ◌-◌, ◌≡◌, ◌≢◌, refl, ◌&&◌, true, false, Option, none, some, if◌then◌else◌, ◌==◌, leb,
  arith,
}
use atangyldb.Memory.{Bytes}
use atangyldb.Rc.{ok}
use atangyldb.Trx.{Rid}
use atangyldb.BplusTree.{ints, Key, IndexNode, FileHeader, IndexPage, Floats, IndexPool, Index}
use atangyldb.BplusTree.Pages.{IsIndexPool, raise, lower, replace}

-- Each file has the pages 1 to `count`.
pub record Shelf : Type 0 where
  pub count : ℕ → ℕ
  pub slots : ℕ → ℕ → IndexPage
  pub held : ℕ → ℕ → ℕ

abbrev pub shelf_content : Shelf → ℕ → ℕ → Option IndexPage
shelf_content s f p = if leb 1 p && leb p (s.count f) then some (s.slots f p) else none

abbrev pub shelf_pool : IndexPool
shelf_pool = record {
  State = Shelf;
  create_file = λ name s. (ok tt, s);
  open_file = λ name s. (ok 0, s);
  close_file = λ f s. s;
  flush_all_pages = λ f s. (ok tt, s);
  get_this_page = λ f p s. (ok tt, record s { held = raise s.held f p });
  allocate_page = λ f s.
      let p = s.count f + 1 in
      (ok p, record s { count = λ f'. if f == f' then p else s.count f'; held = raise s.held f p });
  dispose_page = λ f p s. (ok tt, s);
  page_at = λ s f p. s.slots f p;
  write_page = λ f p page s. record s {
    slots = λ f' p'. if f == f' && p == p' then page else s.slots f' p';
  };
  mark_dirty = λ f p s. s;
  unpin_page = λ f p s. record s { held = lower s.held f p };
  fresh_keys = λ i. record { attr = λ j. 0; rid = record { page_num = 0; slot_num = 0 } };
  fresh_rids = λ i. record { page_num = 0; slot_num = 0 };
}

pub shelf_shows :
    (s : Shelf) (f p : ℕ) (page : IndexPage)
    → shelf_content s f p ≡ some page
    → shelf_pool.page_at s f p ≡ page
shelf_shows s f p page h = ground arith

pub shelf_writes :
    (s : Shelf) (f p : ℕ) (old page : IndexPage)
    → shelf_content s f p ≡ some old
    → shelf_content (shelf_pool.write_page f p page s) ≡ replace (shelf_content s) f p (some page)
shelf_writes s f p old page h = fun_ext λ f'. fun_ext λ p'. ground arith

pub shelf_free : (s : Shelf) (f : ℕ) → shelf_content s f (s.count f + 1) ≡ none
shelf_free s f = ground arith

pub shelf_allocates :
    (s : Shelf) (f : ℕ)
    → shelf_content (shelf_pool.allocate_page f s).1
      ≡ replace (shelf_content s) f (s.count f + 1) (some (s.slots f (s.count f + 1)))
shelf_allocates s f = fun_ext λ f'. fun_ext λ p'. ground arith

pub fresh_page : (s : Shelf) (f : ℕ) → s.count f + 1 ≢ 0
fresh_page s f = omega arith

abbrev pub shelf_pool-IsIndexPool : IsIndexPool shelf_pool
shelf_pool-IsIndexPool = record {
  content = shelf_content;
  pins = λ s. s.held;
  gets = λ s f p page h. (record s { held = raise s.held f p }, refl, refl, refl);
  shows = shelf_shows;
  writes = λ s f p old page h. (shelf_writes s f p old page h, refl);
  marks = λ s f p. (refl, refl);
  unpins = λ s f p. (refl, refl);
  allocates = λ s f. (
    s.count f + 1,
    (shelf_pool.allocate_page f s).1,
    s.slots f (s.count f + 1),
    refl,
    fresh_page s f,
    shelf_free s f,
    shelf_allocates s f,
    refl,
  );
}

-- Floating-point numbers that the tests do not use.
abbrev pub no_floats : Floats
no_floats = record {
  Float = ℕ;
  bits = λ m. m 0;
  minus = λ a b. a - b;
  less = λ a b. false;
  at_most = λ a b. true;
  zero_float = 0;
  tolerance = 0;
  minus_tolerance = 0;
}

abbrev pub attr_of : ℕ → Bytes
attr_of v i = if i == 0 then v else 0

abbrev pub rid_of : ℕ → Rid
rid_of v = record { page_num = 7; slot_num = v }

-- The key `v` of the record in slot `v`.
abbrev pub key_for : ℕ → Key
key_for v = record { attr = attr_of v; rid = rid_of v }

abbrev pub int_header : FileHeader
int_header = record {
  attr_length = 4;
  key_length = 12;
  attr_type = ints;
  root_page = 1;
  node_num = 3;
  order = 4;
}

-- A leaf with one key, and the leaf after it.
abbrev pub leaf_with : ℕ → ℕ → IndexNode
leaf_with v next = record {
  is_leaf = true;
  key_num = 1;
  parent = some 1;
  keys = λ i. key_for v;
  rids = λ i. if i == 3 then record { page_num = next; slot_num = 0 } else rid_of v;
}

-- The root: below 10 page 2, and page 3 from there on.
abbrev pub root_node : IndexNode
root_node = record {
  is_leaf = false;
  key_num = 1;
  parent = none;
  keys = λ i. key_for 10;
  rids = λ i.
      if i == 0
      then record { page_num = 2; slot_num = 0 }
      else record { page_num = 3; slot_num = 0 };
}

abbrev pub page_with : IndexNode → IndexPage
page_with n = record { header = int_header; node = n }

abbrev pub three_pages : Shelf
three_pages = record {
  count = λ f. 3;
  slots = λ f p.
      if p == 1
      then page_with root_node
      else if p == 2
      then page_with (leaf_with 5 3)
      else page_with (leaf_with 10 0);
  held = λ f p. 0;
}

abbrev pub two_leaves : Index Shelf
two_leaves = record {
  is_open = true;
  file_id = 0;
  header_dirty = false;
  file_header = int_header;
  pool = three_pages;
}

-- An index that is one leaf with the key 5.
abbrev pub lone_leaf : IndexNode
lone_leaf = record (leaf_with 5 0) { parent = none }

abbrev pub lone_page : Shelf
lone_page = record { count = λ f. 1; slots = λ f p. page_with lone_leaf; held = λ f p. 0 }

abbrev pub one_leaf : Index Shelf
one_leaf = record two_leaves { pool = lone_page }
