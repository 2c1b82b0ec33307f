-- ===== src/DiskPool.antt =====
-- The class DiskBufferPool of storage/default/disk_buffer_pool.cpp: its state, the calls of the
-- operating system that it makes, and the steps that its methods share. The methods are in the
-- child modules Files and Pages.
pub mod Calls
pub mod Pages
pub mod Files
pub mod Coherent
pub mod Flush
pub mod Evict
pub mod Pinned
pub mod Fetch
pub mod Open
pub mod Write
pub mod Stale
use Prim.Native.String.{String}
use atangyldb.Base.{ℕ, Bool, Option, none, some, List, ◌+◌, ◌-◌, ◌%◌, ◌^◌}
use atangyldb.Memory.{Bytes}
use atangyldb.BufferManager.{Page, Frame, BpManager, set_frame}
use atangyldb.Rc.{Result, ok, err, undefined, Rc}

-- The operating system: a state, and the system calls that the source makes. `none` and `false`
-- stand for the result -1, or for a count other than `sizeof(Page)`; the offset of `lseek` is in
-- bytes from the start of the file.
pub record Os : Type 1 where
  pub State : Type 0
  pub sys_open : State → String → Option ℕ × State
  pub sys_create : State → String → Option ℕ × State
  pub sys_close : State → ℕ → Bool × State
  pub sys_unlink : State → String → Bool × State
  pub sys_lseek : State → ℕ → ℕ → Option State
  pub sys_read : State → ℕ → Option Page × State
  pub sys_write : State → ℕ → Page → Bool × State
  pub sys_now : State → ℕ

-- BPFileHandle. `hdr_page`, `bitmap` and `file_sub_header` point into the header's frame.
pub record FileHandle : Type 0 where
  pub file_name : String
  pub file_desc : ℕ
  pub hdr_frame : ℕ

pub record Pool (S : Type 0) : Type 0 where
  pub manager : BpManager
  pub free_file_ids : List ℕ
  pub open_file : ℕ → Option FileHandle
  pub file_name_id : String → Option ℕ
  pub sys : S

-- BPPageHandle; the frame `none` is a null pointer.
pub record PageHandle : Type 0 where
  pub is_open : Bool
  pub frame : Option ℕ

-- A method: what it returns, and the pool that it leaves, also when it fails.
abbrev pub Io : Type 0 → Type 0 → Type 0
Io S A = Pool S → Result A × Pool S

abbrev pub continue : {S A B : Type 0} → Result A × Pool S → (A → Io S B) → Result B × Pool S
continue (ok a, p) f = f a p
continue (err e, p) f = (err e, p)
continue (undefined, p) f = (undefined, p)

infixl 5 ◌>>=◌ ◌>>◌
abbrev pub ◌>>=◌ : {S A B : Type 0} → Io S A → (A → Io S B) → Io S B
◌>>=◌ m f p = continue (m p) f

abbrev pub ◌>>◌ : {S B : Type 0} → Io S (Unit {0}) → Io S B → Io S B
◌>>◌ m k p = continue (m p) (λ _. k)

abbrev pub pure : {S A : Type 0} → A → Io S A
pure a p = (ok a, p)

abbrev pub fail : {S A : Type 0} → Rc → Io S A
fail e p = (err e, p)

-- The result as a value, for a caller that looks at it.
abbrev pub attempt : {S A : Type 0} → Io S A → Io S (Result A)
attempt m p = let (r, p') = m p in (ok r, p')

abbrev pub max_open_file : ℕ
max_open_file = 1024

-- `sizeof(Page)`
abbrev pub page_size : ℕ
page_size = 4096

-- `frames_[f]` read and written.
abbrev pub frame_of : {S : Type 0} → Pool S → ℕ → Frame
frame_of p f = p.manager.frames f

unfoldable pub with_frame : {S : Type 0} → Pool S → ℕ → Frame → Pool S
unfolding set_frame
with_frame p f frame = record p {
  manager = record (p.manager) { frames = set_frame p.manager.frames f frame };
}

-- `frame->pin_count++` and `frame->pin_count--` on an `unsigned int`.
unfoldable pub inc_pin : Frame → Frame
inc_pin f = record f { pin_count = (f.pin_count + 1) % 2 ^ 32 }

unfoldable pub dec_pin : Frame → Frame
dec_pin f = record f { pin_count = (f.pin_count + 2 ^ 32 - 1) % 2 ^ 32 }
