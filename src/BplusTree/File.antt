-- ===== src/BplusTree/File.antt =====
-- `create`, `open`, `close` and `sync` of BplusTreeHandler in bplus_tree.cpp.
use Prim.Native.String.{String}
use atangyldb.Base.{ℕ, ◌+◌, ◌-◌, ◌*◌, ◌/◌, true, false, none, if◌then◌else◌}
use atangyldb.Rc.{Result, ok, err, undefined, record_openned}
use atangyldb.BplusTree.{
  IndexPool, AttrType, FileHeader, IndexPage, Index, Io, minus_one, get_page, new_page, mark, unpin,
  ◌>>=◌, ◌>>◌,
}

-- `BP_PAGE_DATA_SIZE`, and the sizes of IndexFileHeader, IndexNode and RID
abbrev pub data_size : ℕ
data_size = 4092

abbrev pub header_size : ℕ
header_size = 24

abbrev pub node_size : ℕ
node_size = 32

abbrev pub rid_size : ℕ
rid_size = 8

unfoldable pub order_for : ℕ → ℕ
order_for attr_length = (data_size - header_size - node_size) / (attr_length + 2 * rid_size)

abbrev pub new_header : AttrType → ℕ → ℕ → FileHeader
unfolding order_for
new_header type attr_length root = record {
  attr_length = attr_length;
  key_length = attr_length + rid_size;
  attr_type = type;
  root_page = root;
  node_num = 1;
  order = order_for attr_length;
}

module _ (pool : IndexPool) where
  abbrev pub S : Type 0
  S = pool.State

  -- A method works on local variables, which reach the handler when it succeeds.
  abbrev pub commit : Index S → Result (Unit {0}) × Index S → Result (Unit {0}) × Index S
  commit t (ok u, t') = (ok u, t')
  commit t (err e, t') = (err e, record t { pool = t'.pool })
  commit t (undefined, t') = (undefined, record t { pool = t'.pool })

  unfoldable pub create_new : String → Io S (Unit {0})
  create_new name t = let (r, s) = pool.create_file name t.pool in (r, record t { pool = s })

  unfoldable pub open_file : String → Io S (Unit {0})
  open_file name t =
      let (r, s) = pool.open_file name t.pool in
      elim r [
        | ok fid ↦ (ok tt, record t { pool = s; file_id = fid })
        | err e ↦ (err e, record t { pool = s })
        | undefined ↦ (undefined, record t { pool = s })
      ]

  -- The header and the empty root of a new index, on the page `pn`.
  unfoldable pub write_root : AttrType → ℕ → ℕ → Io S (Unit {0})
  write_root type attr_length pn t =
      let old = pool.page_at t.pool t.file_id pn in
      let page : IndexPage = record {
        header = new_header type attr_length pn;
        node = record (old.node) { is_leaf = true; key_num = 0; parent = none };
      } in
      (ok tt, record t { pool = pool.write_page t.file_id pn page t.pool })

  -- `memcpy(&file_header_, pdata, sizeof(file_header_))` from the page `pn`, and the assignments beside
  -- it.
  unfoldable pub take_header : ℕ → Io S (Unit {0})
  take_header pn t = (
    ok tt,
    record t {
      is_open = true;
      header_dirty = false;
      file_header = (pool.page_at t.pool t.file_id pn).header;
    },
  )

  unfoldable pub create : String → AttrType → ℕ → Io S (Unit {0})
  unfolding create_new open_file new_page write_root mark unpin take_header
  create name type attr_length t =
      let steps : Io S (Unit {0}) = (do
        create_new name
        open_file name
        pn ← new_page pool
        write_root type attr_length pn
        mark pool pn
        unpin pool pn
        take_header pn) in
      commit t (steps t)

  -- The header is that of page 1.
  unfoldable pub open_index : String → Io S (Unit {0})
  unfolding open_file get_page take_header unpin
  open_index name t =
      let steps : Io S (Unit {0}) = (do
        open_file name
        get_page pool 1
        take_header 1
        unpin pool 1) in
      if t.is_open then (err record_openned, t) else commit t (steps t)

  unfoldable pub sync : Io S (Unit {0})
  sync t = let (r, s) = pool.flush_all_pages t.file_id t.pool in (r, record t { pool = s })

  -- The results of `sync` and of `close_file` are not looked at.
  unfoldable pub close : Io S (Unit {0})
  unfolding sync
  close t =
      let s = pool.close_file t.file_id (sync t).1.pool in
      (ok tt, record t { is_open = false; file_id = minus_one; pool = s })
