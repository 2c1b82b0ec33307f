-- ===== src/Tests/Texts.antt =====
-- The text pages of record_manager.cpp at concrete inputs.
use atangyldb.Base.{◌+◌, ◌-◌, ◌≤◌, ◌≡◌, if◌then◌else◌, ltb}
use atangyldb.RecordFile.Text.{
  text_patch_size, page_num_size, bp_page_size, remain_size, store_rest, load_rest,
  load_rest-store_rest,
}

-- Byte 2 of the rest of a text of 40 bytes.
load_rest-store_rest_test :
    (load_rest (λ _. 9) (store_rest (λ _. 0) (λ i. i) 40) 2 ≡ (
      if ltb 2 (remain_size 40)
      then text_patch_size + 2
      else if ltb 2 (bp_page_size - text_patch_size)
      then 0
      else 9))
    × (text_patch_size - page_num_size + remain_size 40 ≤ bp_page_size - page_num_size)
load_rest-store_rest_test = load_rest-store_rest (λ _. 0) (λ i. i) (λ _. 9) 40 2
