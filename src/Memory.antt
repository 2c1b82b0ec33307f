-- ===== src/Memory.antt =====
-- Raw memory: what a `char *` of the source points to. The source reads and writes pages through
-- casts of such a pointer (`memcpy`, `memset`, and an `int` field of a struct laid over the bytes,
-- four bytes, least significant first).
use mathlib.Core.Path.{fun_ext}
use atangyldb.Base.{
  ℕ, ◌+◌, ◌-◌, ◌*◌, ◌/◌, ◌%◌, ◌^◌, ◌≤◌, ◌<◌, ◌≡◌, ◌⊎◌, ◌&&◌, if◌then◌else◌, ◌==◌, ltb, leb, arith,
}

abbrev pub Bytes : Type 0
Bytes = ℕ → ℕ

-- Every cell holds a byte.
abbrev pub IsBytes : Bytes → Type 0
IsBytes m = (i : ℕ) → m i < 256

-- `bytes[i] = v`
unfoldable pub store_byte : Bytes → ℕ → ℕ → Bytes
store_byte m i v j = if i == j then v else m j

-- `*(int *)(bytes + off)`
unfoldable pub load_int : Bytes → ℕ → ℕ
load_int m off = m off + 256 * m (off + 1) + 65536 * m (off + 2) + 16777216 * m (off + 3)

-- `*(int *)(bytes + off) = v`
unfoldable pub store_int : Bytes → ℕ → ℕ → Bytes
store_int m off v j =
    if off == j
    then v % 256
    else if off + 1 == j
    then v / 256 % 256
    else if off + 2 == j
    then v / 65536 % 256
    else if off + 3 == j
    then v / 16777216 % 256
    else m j

-- `memcpy(bytes + off, source, n)`
unfoldable pub copy_in : Bytes → ℕ → Bytes → ℕ → Bytes
copy_in m off source n j = if leb off j && ltb j (off + n) then source (j - off) else m j

-- `memset(bytes + off, v, n)`
unfoldable pub fill : Bytes → ℕ → ℕ → ℕ → Bytes
fill m off v n j = if leb off j && ltb j (off + n) then v else m j

-- `bytes + off`
unfoldable pub offset : Bytes → ℕ → Bytes
offset m off i = m (off + i)

pub load_int-store_int : (m : Bytes) (off v : ℕ) → v < 2 ^ 32 → load_int (store_int m off v) off ≡ v
unfolding load_int store_int
load_int-store_int m off v h = ground arith

pub load_int-store_int_apart :
    (m : Bytes) (off v o : ℕ)
    → (o + 4 ≤ off) ⊎ (off + 4 ≤ o)
    → load_int (store_int m off v) o ≡ load_int m o
unfolding load_int store_int
load_int-store_int_apart m off v o h = ground arith

pub store_int_apart :
    (m : Bytes) (off v j : ℕ) → (j < off) ⊎ (off + 4 ≤ j) → store_int m off v j ≡ m j
unfolding store_int
store_int_apart m off v j h = ground arith

pub store_int-IsBytes : (m : Bytes) (off v : ℕ) → IsBytes m → IsBytes (store_int m off v)
unfolding store_int
store_int-IsBytes m off v h j = ground (arith, h j)

-- The bytes of a region that is reached through its own pointer `base + off`, put back.
unfoldable pub over : Bytes → ℕ → Bytes → Bytes
over m off region j = if leb off j then region (j - off) else m j

pub offset-over : (m : Bytes) (off : ℕ) (region : Bytes) → offset (over m off region) off ≡ region
unfolding offset over
offset-over m off region =
    fun_ext λ i. let e : off + i - off ≡ i = omega arith in rw e (ground arith)

pub load_int-over :
    (m : Bytes) (off : ℕ) (region : Bytes) (o : ℕ)
    → o + 4 ≤ off
    → load_int (over m off region) o ≡ load_int m o
unfolding load_int over
load_int-over m off region o h = ground arith

pub load_int-copy_in :
    (m : Bytes) (off : ℕ) (source : Bytes) (n o : ℕ)
    → o + 4 ≤ off
    → load_int (copy_in m off source n) o ≡ load_int m o
unfolding load_int copy_in
load_int-copy_in m off source n o h = ground arith

pub load_int-fill :
    (m : Bytes) (off v n o : ℕ) → o + 4 ≤ off → load_int (fill m off v n) o ≡ load_int m o
unfolding load_int fill
load_int-fill m off v n o h = ground arith

pub load_int-lt : (m : Bytes) (off : ℕ) → IsBytes m → load_int m off < 2 ^ 32
unfolding load_int
load_int-lt m off h = omega (arith, h off, h (off + 1), h (off + 2), h (off + 3))

pub offset-store_int :
    (m : Bytes) (o v off : ℕ) → o + 4 ≤ off → offset (store_int m o v) off ≡ offset m off
unfolding offset store_int
offset-store_int m o v off h = fun_ext λ i. ground arith

pub copy_in-IsBytes :
    (m : Bytes) (off : ℕ) (source : Bytes) (n : ℕ)
    → IsBytes m
    → IsBytes source
    → IsBytes (copy_in m off source n)
unfolding copy_in
copy_in-IsBytes m off source n h s j = ground (arith, h j, s (j - off))

pub over-IsBytes :
    (m : Bytes) (off : ℕ) (region : Bytes)
    → IsBytes m
    → IsBytes region
    → IsBytes (over m off region)
unfolding over
over-IsBytes m off region h r j = ground (arith, h j, r (j - off))

pub offset-IsBytes : (m : Bytes) (off : ℕ) → IsBytes m → IsBytes (offset m off)
unfolding offset
offset-IsBytes m off h i = h (off + i)

pub fill-IsBytes : (m : Bytes) (off v n : ℕ) → v < 256 → IsBytes m → IsBytes (fill m off v n)
unfolding fill
fill-IsBytes m off v n lt h j = ground (arith, h j)
