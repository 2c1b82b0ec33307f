-- ===== src/DiskPool/Coherent.antt =====
-- What the caches of DiskBufferPool (disk_buffer_pool.cpp) mean: the current content of a page,
-- and when the pool can be trusted with it.
use atangyldb.Base.{ℕ, ◌*◌, ◌≡◌, ◌≢◌, true, false, Option, none, some}
use atangyldb.Base.Lists.{contains}
use atangyldb.BufferManager.{Page, lookup}
use atangyldb.BufferManager.Managed.{Holds, IsManaged}
use atangyldb.BufferManager.Table.{same_key}
use atangyldb.DiskPool.{Os, Pool, page_size, frame_of}

-- What the pool relies on: descriptors are open regular files on a device that does not fail.
-- `stored` is the page that a whole read at its offset gives, `none` past the end of the file.
pub record IsReliable (os : Os) : Type 0 where
  pub stored : os.State → ℕ → ℕ → Option Page
  pub position : os.State → ℕ → ℕ
  pub seeks : (s : os.State) (fd off : ℕ) → os.sys_lseek s fd off ≢ none
  pub lseek_moves :
      (s s' : os.State) (fd off : ℕ) → os.sys_lseek s fd off ≡ some s' → position s' fd ≡ off
  pub lseek_keeps :
      (s s' : os.State) (fd off fd' pn : ℕ)
      → os.sys_lseek s fd off ≡ some s'
      → stored s' fd' pn ≡ stored s fd' pn
  pub read_stored :
      (s : os.State) (fd pn : ℕ)
      → position s fd ≡ pn * page_size
      → (os.sys_read s fd).0 ≡ stored s fd pn
  pub read_keeps :
      (s : os.State) (fd fd' pn : ℕ) → stored (os.sys_read s fd).1 fd' pn ≡ stored s fd' pn
  pub writes : (s : os.State) (fd : ℕ) (page : Page) → (os.sys_write s fd page).0 ≡ true
  pub write_stored :
      (s : os.State) (fd pn : ℕ) (page : Page)
      → position s fd ≡ pn * page_size
      → stored (os.sys_write s fd page).1 fd pn ≡ some page
  pub write_keeps :
      (s : os.State) (fd pn fd' pn' : ℕ) (page other : Page)
      → position s fd ≡ pn * page_size
      → same_key fd pn fd' pn' ≡ false
      → stored s fd' pn' ≡ some other
      → stored (os.sys_write s fd page).1 fd' pn' ≡ some other

module _ (os : Os) (device : IsReliable os) where
  abbrev pub P : Type 0
  P = Pool os.State

  -- The page as its readers see it: the frame that holds it, or else the file.
  abbrev pub content_in : P → Option ℕ → ℕ → ℕ → Option Page
  content_in p none fd pn = device.stored p.sys fd pn
  content_in p (some f) fd pn = some (frame_of p f).page

  abbrev pub content : P → ℕ → ℕ → Option Page
  content p fd pn = content_in p (lookup fd pn p.manager.page_table) fd pn

  -- A frame that is not dirty agrees with the file, and a free frame is not dirty.
  pub record IsCoherent (p : P) : Type 0 where
    pub managed : IsManaged p.manager
    pub clean :
        (fd pn f : ℕ)
        → Holds p.manager fd pn f
        → (frame_of p f).dirty ≡ false
        → device.stored p.sys fd pn ≡ some (frame_of p f).page
    pub free_clean : (f : ℕ) → contains f p.manager.free_list ≡ true → (frame_of p f).dirty ≡ false

  -- No page that can be read changes.
  abbrev pub Keeps : P → P → Type 0
  Keeps p p' =
      (fd pn : ℕ) (page : Page) → content p fd pn ≡ some page → content p' fd pn ≡ some page

  abbrev pub KeepsStored : os.State → os.State → Type 0
  KeepsStored s s' =
      (fd pn : ℕ) (page : Page)
      → device.stored s fd pn ≡ some page
      → device.stored s' fd pn ≡ some page
