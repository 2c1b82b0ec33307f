-- ===== src/Tests/Bits.antt =====
-- The bitmap of deps/common/lang/bitmap.cpp at concrete inputs.
use atangyldb.Base.{
  zero, suc, ◌≡◌, ◌≢◌, refl, inl, true, false, not, some, none, if◌then◌else◌, ◌==◌, arith,
}
use atangyldb.Base.First.{First}
use atangyldb.Memory.{Bytes, IsBytes, store_byte}
use atangyldb.Base.Bits.{drop_bit}
use atangyldb.Bitmap.{get_bit, set_bit, clear_bit, next_unsetted_bit, next_setted_bit}
use atangyldb.Bitmap.Search.{next_setted_bit-First, next_unsetted_bit-First, next_setted_bit-skips}
use atangyldb.Bitmap.Laws.{get_bit-set_bit, get_bit-clear_bit}

-- Bits 0 and 9 are set.
abbrev two_bits : Bytes
two_bits zero = 1
two_bits (suc zero) = 2
two_bits (suc (suc _)) = 0

two_bits-IsBytes : IsBytes two_bits
two_bits-IsBytes zero = omega arith
two_bits-IsBytes (suc zero) = omega arith
two_bits-IsBytes (suc (suc _)) = omega arith

-- The search from 1 finds bit 9, but from 2 on it misses bit 9 when byte 0 is empty.
found : next_setted_bit two_bits 16 1 ≡ some 9
unfolding next_setted_bit
found = refl

missed : next_setted_bit (clear_bit two_bits 0) 16 2 ≡ none
unfolding next_setted_bit clear_bit store_byte drop_bit
missed = refl

next_setted_bit-First_test : First (get_bit two_bits) 8 16 (next_setted_bit two_bits 16 8)
next_setted_bit-First_test = next_setted_bit-First two_bits 16 8 (omega arith) (inl refl)

next_unsetted_bit-First_example :
    First (λ i. not (get_bit two_bits i)) 0 16 (next_unsetted_bit two_bits 16 0)
next_unsetted_bit-First_example = next_unsetted_bit-First two_bits 16 0 (omega arith) (inl refl)

next_setted_bit-skips_test : next_setted_bit (clear_bit two_bits 0) 16 2 ≢ some 9
unfolding clear_bit store_byte drop_bit
next_setted_bit-skips_test =
    next_setted_bit-skips (clear_bit two_bits 0) 16 2 (omega arith) refl 9 (omega arith)

get_bit-set_bit_test :
    (get_bit (set_bit two_bits 5) 5 ≡ (if 5 == 5 then true else get_bit two_bits 5))
    × IsBytes (set_bit two_bits 5)
get_bit-set_bit_test = get_bit-set_bit two_bits 5 5 two_bits-IsBytes

get_bit-clear_bit_test :
    (get_bit (clear_bit two_bits 9) 9 ≡ (if 9 == 9 then false else get_bit two_bits 9))
    × IsBytes (clear_bit two_bits 9)
get_bit-clear_bit_test = get_bit-clear_bit two_bits 9 9 two_bits-IsBytes
