-- ===== src/Trx/Visible.antt =====
-- Who sees a record: the field `__trx` that trx.cpp keeps in it.
use atangyldb.Base.{ℕ, ◌+◌, ◌%◌, ◌<◌, ◌≤◌, ◌≡◌, ◌⊎◌, refl, Bool, true, false, ltb, leb, arith}
use atangyldb.Memory.{Bytes, load_int-store_int, store_int_apart}
use atangyldb.Trx.{Trx, deleted_flag, with_flag, set_record_trx_id, get_record_trx_id}

-- A record gives back the id and the mark that were stored in it, for every id of 31 bits, and no
-- byte outside of the field changes.
pub get_record_trx_id-set_record_trx_id :
    (offset : ℕ) (bytes : Bytes) (id : ℕ) (deleted : Bool)
    → id < deleted_flag
    → (get_record_trx_id offset (set_record_trx_id offset bytes id deleted) ≡ (id, deleted))
      × ((i : ℕ)
          → (i < offset) ⊎ (offset + 4 ≤ i)
          → set_record_trx_id offset bytes id deleted i ≡ bytes i)
unfolding get_record_trx_id set_record_trx_id with_flag
get_record_trx_id-set_record_trx_id offset bytes id true h =
    let flag : ltb id deleted_flag ≡ true = ground arith in
    let law = load_int-store_int bytes offset (id + deleted_flag) (omega arith) in
    let low : (id + deleted_flag) % deleted_flag ≡ id = omega arith in
    let high : leb deleted_flag (id + deleted_flag) ≡ true = ground arith in
    (rw (flag, law, low, high) refl, λ i out. rw flag (store_int_apart bytes offset _ i out))
get_record_trx_id-set_record_trx_id offset bytes id false h =
    let law = load_int-store_int bytes offset id (omega arith) in
    let low : id % deleted_flag ≡ id = omega arith in
    let high : leb deleted_flag id ≡ false = ground arith in
    (rw (law, low, high) refl, λ i out. store_int_apart bytes offset id i out)
