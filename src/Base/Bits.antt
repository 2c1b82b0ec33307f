-- ===== src/Base/Bits.antt =====
-- One byte and its bits: the masks `1 << i`, `byte & m`, `byte | m` and `byte & ~m` of
-- deps/common/lang/bitmap.cpp and of storage/default/disk_buffer_pool.cpp, on a byte that is kept
-- as its unsigned value.
use Prim.Native.Nat.{ℕ, ◌-◌, ◌^◌, ◌<◌, bit_and, bit_or}
use mathlib.Core.Path.{◌≡◌, refl}
use mathlib.Core.Bool.{Bool, true, false, not, ◌&&◌, ◌||◌}
use native.Mathlib.Omega.{arith}
use atangyldb.Base.Tests.{◌==◌, ltb, all_below, all_below_at, all_below_complete, if◌then◌else◌}

-- `(byte & (1 << i)) != 0`
unfoldable pub test_bit : ℕ → ℕ → Bool
test_bit byte i = not (bit_and byte (2 ^ i) == 0)

-- `byte | (1 << i)`
unfoldable pub raise_bit : ℕ → ℕ → ℕ
raise_bit byte i = bit_or byte (2 ^ i)

-- `byte & ~(1 << i)`, cut back to the eight bits of a `char`
unfoldable pub drop_bit : ℕ → ℕ → ℕ
drop_bit byte i = bit_and byte (255 - 2 ^ i)

abbrev beq : Bool → Bool → Bool
beq true b = b
beq false b = not b

-- A byte, a position to write and a position to read: all 2 ^ 14 cases by evaluation.
module _ (p : ℕ → ℕ → ℕ → Bool) where
  byte_cases :
      all_below 256 (λ b. all_below 8 (λ i. all_below 8 (p b i))) ≡ true
      → (b i j : ℕ) → b < 256
      → i < 8
      → j < 8
      → p b i j ≡ true
  byte_cases h b i j hb hi hj =
      all_below_at 8 (p b i) j
        (all_below_at 8 (λ i. all_below 8 (p b i)) i
          (all_below_at 256 (λ b. all_below 8 (λ i. all_below 8 (p b i))) b h hb) hi)
        hj

abbrev raise_case : ℕ → ℕ → ℕ → Bool
raise_case b i j =
    ltb (raise_bit b i) 256
    && beq (test_bit (raise_bit b i) j) (if i == j then true else test_bit b j)

abbrev drop_case : ℕ → ℕ → ℕ → Bool
drop_case b i j =
    ltb (drop_bit b i) 256
    && beq (test_bit (drop_bit b i) j) (if i == j then false else test_bit b j)

raise_table : all_below 256 (λ b. all_below 8 (λ i. all_below 8 (raise_case b i))) ≡ true
unfolding all_below test_bit raise_bit
raise_table = refl

drop_table : all_below 256 (λ b. all_below 8 (λ i. all_below 8 (drop_case b i))) ≡ true
unfolding all_below test_bit drop_bit
drop_table = refl

pub test_bit-raise_bit :
    (b i j : ℕ)
    → b < 256
    → i < 8
    → j < 8
    → (raise_bit b i < 256) × (test_bit (raise_bit b i) j ≡ (if i == j then true else test_bit b j))
test_bit-raise_bit b i j hb hi hj =
    let h = byte_cases raise_case raise_table b i j hb hi hj in ground arith

pub test_bit-drop_bit :
    (b i j : ℕ)
    → b < 256
    → i < 8
    → j < 8
    → (drop_bit b i < 256) × (test_bit (drop_bit b i) j ≡ (if i == j then false else test_bit b j))
test_bit-drop_bit b i j hb hi hj =
    let h = byte_cases drop_case drop_table b i j hb hi hj in ground arith

full_table : all_below 8 (test_bit 255) ≡ true
unfolding all_below test_bit
full_table = refl

-- All bits of the byte -1 are set.
pub test_bit-full : (i : ℕ) → i < 8 → test_bit 255 i ≡ true
test_bit-full i h = all_below_at 8 (test_bit 255) i full_table h

empty_table : all_below 8 (λ i. not (test_bit 0 i)) ≡ true
unfolding all_below test_bit
empty_table = refl

-- No bit of the byte 0 is set.
pub test_bit-zero : (i : ℕ) → i < 8 → test_bit 0 i ≡ false
test_bit-zero i h = let e = all_below_at 8 (λ i. not (test_bit 0 i)) i empty_table h in ground arith

none_table : all_below 256 (λ b. b == 0 || not (all_below 8 (λ i. not (test_bit b i)))) ≡ true
unfolding all_below test_bit
none_table = refl

-- A byte with no bit set is 0.
pub test_bit-none : (b : ℕ) → b < 256 → ((i : ℕ) → i < 8 → test_bit b i ≡ false) → b ≡ 0
test_bit-none b lt h =
    let every = all_below_complete 8 (λ i. not (test_bit b i)) (λ i l. rw (h i l)) in
    let case =
      all_below_at 256 (λ b. b == 0 || not (all_below 8 (λ i. not (test_bit b i)))) b none_table
        lt in
    ground arith
