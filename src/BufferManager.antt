-- ===== src/BufferManager.antt =====
-- Pages, frames and the class BPManager of storage/default/disk_buffer_pool.h and .cpp: which frame
-- holds which page. A `Frame *` is a frame id; `page_table_`, a map of maps, is one list of entries
-- with distinct keys, in the order of its iteration.
pub mod Table
pub mod Managed
pub mod Moves
pub mod Pins
use atangyldb.Base.{
  ℕ, zero, suc, ◌+◌, Bool, true, false, ◌&&◌, not, Option, none, some, List, [], ◌∷◌, ◌++◌,
  if◌then◌else◌, ◌==◌,
}
use atangyldb.Memory.{Bytes}
use atangyldb.LruReplacer.{LruReplacer, new_replacer, victim, pin}

pub record Page : Type 0 where
  pub page_num : ℕ
  pub bytes : Bytes

pub record Frame : Type 0 where
  pub dirty : Bool
  pub pin_count : ℕ
  pub acc_time : ℕ
  pub file_desc : ℕ
  pub page : Page

pub record Entry : Type 0 where
  pub fd : ℕ
  pub pn : ℕ
  pub frame : ℕ

pub record BpManager : Type 0 where
  pub size : ℕ
  pub frames : ℕ → Frame
  pub page_table : List Entry
  pub free_list : List ℕ
  pub replacer : LruReplacer

-- `frames_[f] = frame`
unfoldable pub set_frame : (ℕ → Frame) → ℕ → Frame → ℕ → Frame
set_frame frames f frame g = if f == g then frame else frames g

abbrev pub has_key : ℕ → ℕ → Entry → Bool
has_key fd pn e = e.fd == fd && e.pn == pn

-- `page_table_[fd][pn]`, if both `count`s are not 0
unfoldable pub lookup : ℕ → ℕ → List Entry → Option ℕ
lookup fd pn [] = none
lookup fd pn (e ∷ es) = if has_key fd pn e then some e.frame else lookup fd pn es

-- `page_table_[fd][pn] = frame`
unfoldable pub put_entry : ℕ → ℕ → ℕ → List Entry → List Entry
put_entry fd pn f [] = record { fd = fd; pn = pn; frame = f } ∷ []
put_entry fd pn f (e ∷ es) =
    if has_key fd pn e then record e { frame = f } ∷ es else e ∷ put_entry fd pn f es

-- `page_table_[fd].erase(pn)`; an inner map that becomes empty is not seen
unfoldable pub erase_entry : ℕ → ℕ → List Entry → List Entry
erase_entry fd pn [] = []
erase_entry fd pn (e ∷ es) = if has_key fd pn e then es else e ∷ erase_entry fd pn es

-- `for (i = 0; i < size; i++) free_list_.emplace_back(i)`, from `i` on
unfoldable pub frame_ids : ℕ → ℕ → List ℕ
frame_ids i zero = []
frame_ids i (suc n) = i ∷ frame_ids (i + 1) n

-- The constructor. `new Frame[size]` leaves all but the pin count as the memory was.
unfoldable pub new_manager : ℕ → (ℕ → Frame) → BpManager
unfolding frame_ids new_replacer
new_manager size memory = record {
  size = size;
  frames = λ f. record (memory f) { pin_count = 0 };
  page_table = [];
  free_list = frame_ids 0 size;
  replacer = new_replacer size;
}

-- The branch of `alloc` that takes a frame from the replacer.
unfoldable pub take_victim : BpManager → Option ℕ × LruReplacer → Option ℕ × BpManager
unfolding erase_entry pin
take_victim b (none, r) = (none, record b { replacer = r })
take_victim b (some f, r) = (
  some f,
  record b {
    page_table = erase_entry (b.frames f).file_desc (b.frames f).page.page_num b.page_table;
    replacer = pin r f;
  },
)

-- `alloc`, by the free list.
unfoldable pub alloc_from : BpManager → List ℕ → Option ℕ × BpManager
unfolding take_victim victim pin
alloc_from b [] = take_victim b (victim b.replacer)
alloc_from b (f ∷ rest) = (some f, record b { free_list = rest; replacer = pin b.replacer f })

unfoldable pub alloc : BpManager → Option ℕ × BpManager
unfolding alloc_from
alloc b = alloc_from b b.free_list

unfoldable pub get_frame : BpManager → ℕ → ℕ → Option ℕ
unfolding lookup
get_frame b fd pn = lookup fd pn b.page_table

unfoldable pub delete_frame : BpManager → ℕ → ℕ → ℕ → BpManager
unfolding erase_entry pin
delete_frame b fd pn f = record b {
  page_table = erase_entry fd pn b.page_table;
  free_list = b.free_list ++ f ∷ [];
  replacer = pin b.replacer f;
}

unfoldable pub add_page_table : BpManager → ℕ → ℕ → ℕ → BpManager
unfolding put_entry
add_page_table b fd pn f = record b { page_table = put_entry fd pn f b.page_table }
