-- ===== src/Bitmap/Laws.antt =====
-- Reads after writes in a bitmap of deps/common/lang/bitmap.cpp.
use atangyldb.Base.{ℕ, ◌/◌, ◌%◌, ◌≡◌, ◌≢◌, true, false, if◌then◌else◌, ◌==◌, arith}
use atangyldb.Base.Bits.{test_bit-raise_bit, test_bit-drop_bit}
use atangyldb.Memory.{Bytes, IsBytes, store_byte}
use atangyldb.Bitmap.{get_bit, set_bit, clear_bit}

-- Setting a bit sets that bit, changes no other bit, and leaves bytes in every cell.
pub get_bit-set_bit :
    (bytes : Bytes) (i j : ℕ)
    → IsBytes bytes
    → (get_bit (set_bit bytes i) j ≡ (if i == j then true else get_bit bytes j))
      × IsBytes (set_bit bytes i)
unfolding get_bit set_bit store_byte
get_bit-set_bit bytes i j h =
    let law =
      test_bit-raise_bit (bytes (i / 8)) (i % 8) (j % 8) (h (i / 8)) (omega arith) (omega arith) in
    (ground arith, λ k. ground (arith, h k))

-- Clearing a bit clears that bit, changes no other bit, and leaves bytes in every cell.
pub get_bit-clear_bit :
    (bytes : Bytes) (i j : ℕ)
    → IsBytes bytes
    → (get_bit (clear_bit bytes i) j ≡ (if i == j then false else get_bit bytes j))
      × IsBytes (clear_bit bytes i)
unfolding get_bit clear_bit store_byte
get_bit-clear_bit bytes i j h =
    let law =
      test_bit-drop_bit (bytes (i / 8)) (i % 8) (j % 8) (h (i / 8)) (omega arith) (omega arith) in
    (ground arith, λ k. ground (arith, h k))

pub set_bit-other_byte : (bytes : Bytes) (i k : ℕ) → k ≢ i / 8 → set_bit bytes i k ≡ bytes k
unfolding set_bit store_byte
set_bit-other_byte bytes i k h = ground arith

pub clear_bit-other_byte : (bytes : Bytes) (i k : ℕ) → k ≢ i / 8 → clear_bit bytes i k ≡ bytes k
unfolding clear_bit store_byte
clear_bit-other_byte bytes i k h = ground arith
