-- ===== src/Tests/Managers.antt =====
-- The class BPManager of disk_buffer_pool.cpp at concrete inputs.
use atangyldb.Base.{ℕ, ◌≡◌, refl, subst, false, none, some, if◌then◌else◌}
use atangyldb.BufferManager.{
  Frame, BpManager, new_manager, alloc, add_page_table, delete_frame, lookup,
}
use atangyldb.BufferManager.Table.{same_key}
use atangyldb.BufferManager.Managed.{Holds, IsManaged, Taken, AllocOutcome, alloc-Taken}
use atangyldb.BufferManager.Moves.{
  new_manager-IsManaged, add_page_table-IsManaged, delete_frame-IsManaged,
}

abbrev pub blank_frame : Frame
blank_frame = record {
  dirty = false;
  pin_count = 0;
  acc_time = 0;
  file_desc = 0;
  page = record { page_num = 0; bytes = λ _. 0 };
}

-- Two frames, all free.
abbrev two_free : BpManager
two_free = new_manager 2 (λ _. blank_frame)

two_free-IsManaged : IsManaged two_free
two_free-IsManaged = new_manager-IsManaged 2 (λ _. blank_frame)

alloc-Taken_example : AllocOutcome two_free (alloc two_free)
alloc-Taken_example = alloc-Taken two_free two_free-IsManaged

-- Frame 0 handed out.
abbrev one_taken : BpManager
one_taken = (alloc two_free).1

taken : alloc two_free ≡ (some 0, one_taken)
unfolding alloc new_manager
taken = refl

handed_out : Taken two_free 0 one_taken
handed_out = subst (AllocOutcome two_free) taken (alloc-Taken two_free two_free-IsManaged)

add_page_table-IsManaged_test :
    IsManaged (add_page_table one_taken 0 0 0)
    × ((fd' pn' : ℕ)
        → lookup fd' pn' (add_page_table one_taken 0 0 0).page_table
          ≡ (if same_key 0 0 fd' pn' then some 0 else lookup fd' pn' one_taken.page_table))
unfolding alloc new_manager lookup
add_page_table-IsManaged_test =
    add_page_table-IsManaged one_taken 0 0 0 handed_out.managed handed_out.loose refl refl refl

-- Page 0 of descriptor 0 in frame 0.
abbrev one_held : BpManager
one_held = add_page_table one_taken 0 0 0

one_held-IsManaged : IsManaged one_held
unfolding alloc new_manager lookup
one_held-IsManaged =
    (add_page_table-IsManaged one_taken 0 0 0 handed_out.managed handed_out.loose refl refl refl).0

held_0 : Holds one_held 0 0 0
unfolding alloc new_manager lookup add_page_table
held_0 = refl

delete_frame-IsManaged_test :
    IsManaged (delete_frame one_held 0 0 0)
    × ((fd' pn' : ℕ)
        → lookup fd' pn' (delete_frame one_held 0 0 0).page_table
          ≡ (if same_key 0 0 fd' pn' then none else lookup fd' pn' one_held.page_table))
delete_frame-IsManaged_test = delete_frame-IsManaged one_held 0 0 0 one_held-IsManaged held_0
