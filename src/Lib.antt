-- ===== src/Lib.antt =====
-- Verification library for the storage layer of Atangyldb, a relational database in C++: bitmaps, the
-- buffer pool with its replacement policy, pages and files of records, B+ tree indexes, filters of
-- records, and transactions.
--
-- The parts and how they interact. A file of the database is a sequence of pages of 4096 bytes. The
-- buffer pool keeps pages in frames: the buffer manager says which frame holds which page, the replacer
-- which frames may be evicted, and the pool itself reads and writes pages, pins them for its users and
-- writes dirty ones back. A record file asks the pool for pages, and a record page lays slots for records
-- of one size over the bytes of a page, behind a header and a bitmap of the occupied slots. An index
-- keeps a tree of keys and record ids in the pages of a file of its own, and a filter looks at the bytes
-- of a record. A transaction logs the records that it inserted or marked as deleted, and settles them in their tables
-- when it commits or rolls back.
--
-- The modules, and the code that they model:
--   Base           tests, lists, bits, least numbers that pass a test, and counting; shared by all
--   Memory         bytes behind a pointer: int fields, memcpy and memset
--   Rc             the return codes of src/observer/rc.h that the modelled code returns; `Result` is a
--                  value, a code, or behaviour that C++ leaves undefined
--   Bitmap         deps/common/lang/bitmap.cpp. A bitmap is its bytes; the result -1 is `none`
--   LruReplacer    src/observer/storage/default/lru_replacer.cpp. An iterator is the identity of a node
--   BufferManager  BPManager of src/observer/storage/default/disk_buffer_pool.h and .cpp. A pointer to a
--                  frame is its id; the map of maps page_table_ is a list of entries with distinct keys
--   DiskPool       DiskBufferPool of the same files: Calls has the protected methods, Pages the methods
--                  on a page, Files those on a file. A method is a function from a pool to a result and
--                  a pool. The calls of the operating system are a record of functions (Os), and
--                  IsReliable says what the theorems need of them: regular files on a device that does
--                  not fail. Coherent defines what the pool holds; Flush, Evict, Fetch, Open, Write and
--                  Stale are about flush_block, allocate_block, get_this_page, open_file, the users of a
--                  page, and closing
--   RecordPage     RecordPageHandler of src/observer/storage/common/record_manager.cpp, as functions on
--                  the bytes of a page
--   RecordHandler  the same class with its calls of the buffer pool
--   RecordFile     RecordFileHandler of that file; Text has its text pages, Room is about the page
--                  that insert_record finds, Scanner is RecordFileScanner, Scanner/InPage its search
--                  of one page
--   Trx            src/observer/storage/trx/trx.h and trx.cpp; Trx/Table has commit_insert,
--                  rollback_insert, commit_delete and rollback_delete of
--                  src/observer/storage/common/table.cpp, over an interface (Tables) for the records and
--                  indexes of a table, whose laws are IsTables
--   BplusTree      src/observer/storage/common/bplus_tree.h and bplus_tree.cpp. Compare has CompareKey,
--                  CmpKey and satisfy_condition; Arrays the loops over the arrays of a node, Node what
--                  the methods do to nodes, Search, Insert, Delete and File the methods of
--                  BplusTreeHandler, Scanner those of BplusTreeScanner, and Field has BplusTreeIndex of
--                  bplus_tree_index.cpp there. Pages says what the theorems need
--                  of the buffer pool, Order what a comparison must be, Tree which pages make up a tree
--                  and which entries it has; Lookup, Entry and Insertion are about find_leaf, get_entry and
--                  insert_entry, Deletion about delete_entry, Leaf, Split and Siblings about nodes that gain,
--                  share and lose entries
--   DateUtil       DateUtil of src/observer/storage/common/meta_util.cpp; Calendar and Sorted are about which
--                  dates it accepts, and the order of the strings that it leaves
--   ConditionFilter  DefaultConditionFilter and CompositeConditionFilter of
--                  src/observer/storage/common/condition_filter.cpp. What uninitialised memory holds is an
--                  argument. Compared is about filter, Accepted about init
--   Tests          runs at concrete inputs, with a device and tables that satisfy the interfaces
--
-- Numbers. An `int` that the code uses as a count, an index or a page number is a natural number; where
-- it is stored in a page it takes four bytes and wraps at 2 ^ 32, as pin counts do. Page numbers and
-- offsets of files do not wrap. -1 for "none" is `none`. Log lines, and allocations that fail, are left
-- out.
--
-- Loops. The loops over bits, pages, lists and rounds of a search are structural recursion on what is
-- left of them. The loop of a scan inside of a page has a round for each slot and one more, and each
-- round goes to a later slot, so that it ends by itself. A descent in an index takes the number of nodes
-- that it may visit, a walk along its leaves the number of leaves, and a split or a merge the number of
-- levels that it may go up; one more than the levels of inner nodes is enough for a descent. There is no
-- other fuel.
--
-- Nodes. A page of an index is a header and a node, the arrays of a node are functions from the index,
-- and the byte layout of both is not modelled. The parent -1 is `none`. Page and slot numbers in record
-- ids are the bits of an `int`. Floating-point numbers are an interface. A method that ends with an error
-- keeps the changes that it made before.
--
-- Not modelled: the filters of tuples and expressions (a scan takes a test on bytes), the rest of
-- the tables and their metadata, SQL parsing and execution, the server and its framework of stages, and
-- the common libraries. The code has no concurrency control in the parts modelled here.
pub mod Base
pub mod Memory
pub mod Rc
pub mod Bitmap
pub mod LruReplacer
pub mod RecordPage
pub mod BufferManager
pub mod DiskPool
pub mod Trx
pub mod BplusTree
pub mod DateUtil
pub mod ConditionFilter
pub mod RecordHandler
pub mod RecordFile
pub mod Tests
