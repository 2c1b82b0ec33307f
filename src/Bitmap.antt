-- ===== src/Bitmap.antt =====
-- The bitmap of deps/common/lang/bitmap.cpp. `bitmap_` is a pointer into a page: here the bytes
-- that follow it, as a function of the index. `char` is signed, so the byte -1 is 255.
pub mod Search
pub mod Laws
use atangyldb.Base.{
  ℕ, zero, suc, ◌+◌, ◌-◌, ◌*◌, ◌/◌, ◌%◌, Bool, true, false, Option, none, some, if◌then◌else◌, ◌==◌,
  leb,
}
use atangyldb.Base.Bits.{test_bit, raise_bit, drop_bit}
use atangyldb.Memory.{Bytes, store_byte}

-- The loops `for (int i = start; i < 8; i++)`, by the rounds that are left; `none` is -1.
find_zero_loop : ℕ → ℕ → ℕ → Option ℕ
find_zero_loop zero byte i = none
find_zero_loop (suc n) byte i =
    let rest = find_zero_loop n byte (i + 1) in if test_bit byte i then rest else some i

find_setted_loop : ℕ → ℕ → ℕ → Option ℕ
find_setted_loop zero byte i = none
find_setted_loop (suc n) byte i =
    let rest = find_setted_loop n byte (i + 1) in if test_bit byte i then some i else rest

unfoldable pub find_first_zero : ℕ → ℕ → Option ℕ
unfolding find_zero_loop test_bit
find_first_zero byte start = find_zero_loop (8 - start) byte start

unfoldable pub find_first_setted : ℕ → ℕ → Option ℕ
unfolding find_setted_loop test_bit
find_first_setted byte start = find_setted_loop (8 - start) byte start

unfoldable pub get_bit : Bytes → ℕ → Bool
get_bit bytes index = test_bit (bytes (index / 8)) (index % 8)

unfoldable pub set_bit : Bytes → ℕ → Bytes
set_bit bytes index = store_byte bytes (index / 8) (raise_bit (bytes (index / 8)) (index % 8))

unfoldable pub clear_bit : Bytes → ℕ → Bytes
clear_bit bytes index = store_byte bytes (index / 8) (drop_bit (bytes (index / 8)) (index % 8))

-- `end`: the first byte after the bitmap's own, which the loops still read.
unfoldable pub last_byte : ℕ → ℕ
last_byte size = if size % 8 == 0 then size / 8 else size / 8 + 1

-- One of the two search loops: `skip` is the byte that the loop passes over, `find` its search in
-- a byte, `n` the rounds left, `at_bit` the variable `start_in_byte`.
search_loop : (ℕ → ℕ → Option ℕ) → ℕ → Bytes → ℕ → ℕ → ℕ → Option ℕ
search_loop find skip bytes zero iter at_bit = none
search_loop find skip bytes (suc n) iter at_bit =
    let same = search_loop find skip bytes n (iter + 1) at_bit in
    let reset = search_loop find skip bytes n (iter + 1) 0 in
    elim (bytes iter == skip) [
      | true ↦ same
      | false ↦ elim (find (bytes iter) at_bit) [ some k ↦ some (iter * 8 + k) | none ↦ reset ]
    ]

-- `if (ret >= size_) ret = -1;`
unfoldable pub in_size : ℕ → Option ℕ → Option ℕ
in_size size none = none
in_size size (some k) = if leb size k then none else some k

unfoldable pub next_unsetted_bit : Bytes → ℕ → ℕ → Option ℕ
unfolding search_loop in_size last_byte find_first_zero
next_unsetted_bit bytes size start =
    in_size size (
      search_loop find_first_zero 255 bytes (last_byte size + 1 - start / 8) (start / 8)
        (start % 8))

unfoldable pub next_setted_bit : Bytes → ℕ → ℕ → Option ℕ
unfolding search_loop in_size last_byte find_first_setted
next_setted_bit bytes size start =
    in_size size (
      search_loop find_first_setted 0 bytes (last_byte size + 1 - start / 8) (start / 8)
        (start % 8))
