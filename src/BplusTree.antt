-- ===== src/BplusTree.antt =====
-- The B+ tree index of storage/common/bplus_tree.h and bplus_tree.cpp: its nodes, the pages that hold
-- them, and the handler.
pub mod Arrays
pub mod Compare
pub mod Node
pub mod Search
pub mod Insert
pub mod Delete
pub mod File
pub mod Scanner
pub mod Field
pub mod Pages
pub mod Order
pub mod Tree
pub mod Lookup
pub mod Entry
pub mod Leaf
pub mod Written
pub mod Insertion
pub mod Split
pub mod Siblings
pub mod Deletion
use Prim.Native.String.{String}
use atangyldb.Base.{ℕ, ◌-◌, ◌^◌, Bool, Option, true, false, none, some, if◌then◌else◌}
use atangyldb.Memory.{Bytes}
use atangyldb.Rc.{Rc, Result, ok, err, undefined}
use atangyldb.Trx.{Rid}

pub data AttrType : Type 0 where
  undefined_attr chars ints dates texts floats : AttrType

-- The comparisons of a condition.
pub data CompOp : Type 0 where
  equal_to less_equal not_equal less_than great_equal great_than : CompOp
  is is_not in_op not_in_op no_op : CompOp

-- The `key_length` bytes of a key: an attribute's value, and the record that has it.
pub record Key : Type 0 where
  pub attr : Bytes
  pub rid : Rid

-- The bits of the `int` -1.
abbrev pub minus_one : ℕ
minus_one = 2 ^ 32 - 1

-- IndexNode with the arrays behind it. The children of an inner node are the page numbers of its
-- `rids`; the last of the `rids` of a leaf has the page of the next leaf, 0 if there is none.
pub record IndexNode : Type 0 where
  pub is_leaf : Bool
  pub key_num : ℕ
  pub parent : Option ℕ
  pub keys : ℕ → Key
  pub rids : ℕ → Rid

pub record FileHeader : Type 0 where
  pub attr_length : ℕ
  pub key_length : ℕ
  pub attr_type : AttrType
  pub root_page : ℕ
  pub node_num : ℕ
  pub order : ℕ

-- A page of the file: the header, of which that of page 1 counts, and a node.
pub record IndexPage : Type 0 where
  pub header : FileHeader
  pub node : IndexNode

-- The floating-point numbers of C++, by what the comparisons use; `bits` reads one from memory.
pub record Floats : Type 1 where
  pub Float : Type 0
  pub bits : Bytes → Float
  pub minus : Float → Float → Float
  pub less : Float → Float → Bool
  pub at_most : Float → Float → Bool
  pub zero_float : Float
  pub tolerance : Float
  pub minus_tolerance : Float

-- The buffer pool as the index uses it. `page_at` is what the pointer of `get_data` shows, and
-- `write_page` an assignment through it. `get_data`, `get_page_num`, `mark_dirty` and `unpin_page` are
-- called with a handle that is open, and return SUCCESS then. `fresh_keys` and `fresh_rids` are what
-- `malloc` leaves in new memory.
pub record IndexPool : Type 1 where
  pub State : Type 0
  pub create_file : String → State → Result (Unit {0}) × State
  pub open_file : String → State → Result ℕ × State
  pub close_file : ℕ → State → State
  pub flush_all_pages : ℕ → State → Result (Unit {0}) × State
  pub get_this_page : ℕ → ℕ → State → Result (Unit {0}) × State
  pub allocate_page : ℕ → State → Result ℕ × State
  pub dispose_page : ℕ → ℕ → State → Result (Unit {0}) × State
  pub page_at : State → ℕ → ℕ → IndexPage
  pub write_page : ℕ → ℕ → IndexPage → State → State
  pub mark_dirty : ℕ → ℕ → State → State
  pub unpin_page : ℕ → ℕ → State → State
  pub fresh_keys : ℕ → Key
  pub fresh_rids : ℕ → Rid

-- BplusTreeHandler with the pool. `is_open` says that `disk_buffer_pool_` is not null.
pub record Index (S : Type 0) : Type 0 where
  pub is_open : Bool
  pub file_id : ℕ
  pub header_dirty : Bool
  pub file_header : FileHeader
  pub pool : S

-- A method: what it returns, and what it leaves, also when it fails.
abbrev pub Io : Type 0 → Type 0 → Type 0
Io S A = Index S → Result A × Index S

abbrev pub continue : {S A B : Type 0} → Result A × Index S → (A → Io S B) → Result B × Index S
continue (ok a, t) f = f a t
continue (err e, t) f = (err e, t)
continue (undefined, t) f = (undefined, t)

infixl 5 ◌>>=◌ ◌>>◌
abbrev pub ◌>>=◌ : {S A B : Type 0} → Io S A → (A → Io S B) → Io S B
◌>>=◌ m f t = continue (m t) f

abbrev pub ◌>>◌ : {S B : Type 0} → Io S (Unit {0}) → Io S B → Io S B
◌>>◌ m k t = continue (m t) (λ _. k)

abbrev pub pure : {S A : Type 0} → A → Io S A
pure a t = (ok a, t)

abbrev pub fail : {S A : Type 0} → Rc → Io S A
fail e t = (err e, t)

-- A loop that does not end, or a use of the page number -1.
abbrev pub diverge : {S A : Type 0} → Io S A
diverge t = (undefined, t)

module _ (pool : IndexPool) where
  abbrev pub S : Type 0
  S = pool.State

  unfoldable pub get_page : ℕ → Io S (Unit {0})
  get_page pn t = let (r, s) = pool.get_this_page t.file_id pn t.pool in (r, record t { pool = s })

  unfoldable pub new_page : Io S ℕ
  new_page t = let (r, s) = pool.allocate_page t.file_id t.pool in (r, record t { pool = s })

  unfoldable pub dispose : ℕ → Io S (Unit {0})
  dispose pn t = let (r, s) = pool.dispose_page t.file_id pn t.pool in (r, record t { pool = s })

  unfoldable pub read_node : ℕ → Io S IndexNode
  read_node pn t = (ok (pool.page_at t.pool t.file_id pn).node, t)

  unfoldable pub write_node : ℕ → IndexNode → Io S (Unit {0})
  write_node pn n t =
      let page = record (pool.page_at t.pool t.file_id pn) { node = n } in
      (ok tt, record t { pool = pool.write_page t.file_id pn page t.pool })

  unfoldable pub mark : ℕ → Io S (Unit {0})
  mark pn t = (ok tt, record t { pool = pool.mark_dirty t.file_id pn t.pool })

  unfoldable pub unpin : ℕ → Io S (Unit {0})
  unpin pn t = (ok tt, record t { pool = pool.unpin_page t.file_id pn t.pool })

  unfoldable pub header_of : Io S FileHeader
  header_of t = (ok t.file_header, t)

  -- `file_header_.root_page = pn; header_dirty_ = true;`
  unfoldable pub set_root : ℕ → Io S (Unit {0})
  set_root pn t = (
    ok tt,
    record t { file_header = record (t.file_header) { root_page = pn }; header_dirty = true },
  )
