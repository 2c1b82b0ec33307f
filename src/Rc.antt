-- ===== src/Rc.antt =====
-- The return codes of rc.h, SUCCESS apart, that the modelled code returns, and the result of a
-- call: a value on SUCCESS, a code, or no defined behaviour in C++ (an index -1 used as an
-- address, for instance), which is kept apart so that theorems can exclude it.
pub data Rc : Type 0 where
  generic_error invalid_argument nomem locked_unlock : Rc
  bufferpool_closed bufferpool_fileerr bufferpool_invalid_page_num bufferpool_page_pinned : Rc
  bufferpool_open_too_many_files bufferpool_illegal_file_id : Rc
  record_closed record_openned record_invalidrid record_nomem record_eof : Rc
  record_record_not_exist record_no_more_idx_in_mem record_invalid_key record_duplicate_key : Rc
  record_scanclosed : Rc
  ioerr ioerr_access ioerr_close ioerr_seek ioerr_read ioerr_write : Rc
  schema_db_exist schema_field_missing schema_field_type_mismatch : Rc

pub data Result {ℓ} (A : Type ℓ) : Type ℓ where
  ok : A → Result A
  err : Rc → Result A
  undefined : Result A
