-- ===== src/Bitmap/Search.antt =====
-- The searches of deps/common/lang/bitmap.cpp find the first bit of their kind.
use atangyldb.Base.{
  ℕ, zero, suc, ◌+◌, ◌-◌, ◌*◌, ◌/◌, ◌%◌, ◌≤◌, ◌<◌, ◌≡◌, refl, ◌≢◌, ◌⊎◌, inl, inr, Bool, not, Option,
  none, some, ◌==◌, arith, Bool-cases, Option-cases,
}
use atangyldb.Base.Bits.{test_bit, test_bit-full, test_bit-zero}
use atangyldb.Base.First.{First, NoneIn, First-extend, First-cut}
use atangyldb.Memory.{Bytes}
use atangyldb.Bitmap.{
  find_zero_loop, find_setted_loop, find_first_zero, find_first_setted, get_bit, last_byte,
  search_loop, in_size, next_unsetted_bit, next_setted_bit,
}

find_setted_loop-First :
    (n byte i hi : ℕ) → i + n ≡ hi → First (test_bit byte) i hi (find_setted_loop n byte i)
unfolding find_setted_loop
find_setted_loop-First zero byte i hi e = λ j a b. absurd (omega arith)
find_setted_loop-First (suc n) byte i hi e = elim (Bool-cases (test_bit byte i)) [
  | inl on ↦ rw on (omega arith, omega arith, on, λ j a b. absurd (omega arith))
  | inr off ↦ rw off (
      First-extend (test_bit byte) i (i + 1) hi _ (omega arith)
        (λ j a b. let same : j ≡ i = omega arith in rw same off)
        (find_setted_loop-First n byte (i + 1) hi (omega arith)))
]

find_zero_loop-First :
    (n byte i hi : ℕ)
    → i + n ≡ hi
    → First (λ k. not (test_bit byte k)) i hi (find_zero_loop n byte i)
unfolding find_zero_loop
find_zero_loop-First zero byte i hi e = λ j a b. absurd (omega arith)
find_zero_loop-First (suc n) byte i hi e = elim (Bool-cases (test_bit byte i)) [
  | inr on ↦ rw on (omega arith, omega arith, rw on, λ j a b. absurd (omega arith))
  | inl off ↦ rw off (
      First-extend (λ k. not (test_bit byte k)) i (i + 1) hi _ (omega arith)
        (λ j a b. let same : j ≡ i = omega arith in rw (same, off))
        (find_zero_loop-First n byte (i + 1) hi (omega arith)))
]

-- The loop over bytes, for any test `p` on the bits of a byte, a search `find` in a byte that is
-- right, and a byte `skip` with no bit that passes.
module _ (p : ℕ → ℕ → Bool) (find : ℕ → ℕ → Option ℕ) (skip : ℕ)
    (found : (byte k : ℕ) → k < 8 → First (p byte) k 8 (find byte k))
    (nothing : NoneIn (p skip) 0 8) (bytes : Bytes) where
  abbrev at_index : ℕ → Bool
  at_index i = p (bytes (i / 8)) (i % 8)

  byte_none :
      (iter k top : ℕ)
      → top ≤ 8
      → NoneIn (p (bytes iter)) k top
      → NoneIn at_index (iter * 8 + k) (iter * 8 + top)
  byte_none iter k top le h j a b =
      let q : j / 8 ≡ iter = omega arith in rw q (h (j % 8) (omega arith) (omega arith))

  byte_some :
      (iter k b hi : ℕ)
      → iter * 8 + 8 ≤ hi
      → First (p (bytes iter)) k 8 (some b)
      → First at_index (iter * 8 + k) hi (some (iter * 8 + b))
  byte_some iter k b hi le h =
      let q : (iter * 8 + b) / 8 ≡ iter = omega arith in
      let r : (iter * 8 + b) % 8 ≡ b = omega arith in
      (omega arith, omega arith, rw (q, r) h.2, byte_none iter k b (omega arith) h.3)

  -- One round that found nothing, and the rounds after it.
  next_byte :
      (iter k hi : ℕ) (r : Option ℕ)
      → k < 8
      → NoneIn (p (bytes iter)) k 8
      → First at_index ((iter + 1) * 8 + 0) hi r
      → First at_index (iter * 8 + k) hi r
  next_byte iter k hi r lt empty rest =
      First-extend at_index (iter * 8 + k) ((iter + 1) * 8 + 0) hi r (omega arith)
        (λ j a b. byte_none iter k 8 (omega arith) empty j a (omega arith)) rest

  skipped : (iter : ℕ) → bytes iter ≡ skip → NoneIn (p (bytes iter)) 0 8
  skipped iter e = rw e nothing

  search_loop-First :
      (n iter k hi : ℕ)
      → (iter + n) * 8 ≡ hi
      → k < 8
      → (k ≡ 0) ⊎ (bytes iter ≢ skip)
      → First at_index (iter * 8 + k) hi (search_loop find skip bytes n iter k)
  unfolding search_loop
  search_loop-First zero iter k hi e lt c = λ j a b. absurd (omega arith)
  search_loop-First (suc n) iter k hi e lt c = elim (Bool-cases (bytes iter == skip)) [
    | inl same ↦
        let s : bytes iter ≡ skip = ground arith in
        let z : k ≡ 0 = ground arith in
        rw (same, search_loop, z)
          (next_byte iter 0 hi _ (omega arith) (skipped iter s)
            (search_loop-First n (iter + 1) 0 hi (omega arith) (omega arith) (inl refl)))
    | inr other ↦ elim (Option-cases (find (bytes iter) k)) [
      | inl missing ↦
          rw (other, search_loop, missing)
            (next_byte iter k hi _ lt (rw missing at (found (bytes iter) k lt))
              (search_loop-First n (iter + 1) 0 hi (omega arith) (omega arith) (inl refl)))
      | inr (b, hit) ↦
          rw (other, search_loop, hit)
            (byte_some iter k b hi (omega arith) (rw hit at (found (bytes iter) k lt)))
    ]
  ]

-- A search below `size` is the loop's search over whole bytes, cut.
in_size-First :
    (p : ℕ → Bool) (lo hi size : ℕ) (r : Option ℕ)
    → size ≤ hi
    → First p lo hi r
    → First p lo size (in_size size r)
unfolding in_size
in_size-First p lo hi size none le h = λ j a b. h j a (omega arith)
in_size-First p lo hi size (some k) le h = First-cut p lo hi size k le h

last_byte-covers : (size : ℕ) → size ≤ last_byte size * 8
unfolding last_byte
last_byte-covers size = ground arith

-- The search for a set bit from `start` on finds the least set bit of the bitmap that is not
-- below `start`, and fails exactly when there is none, if `start` opens a byte or the byte of
-- `start` has any bit set.
pub next_setted_bit-First :
    (bytes : Bytes) (size start : ℕ)
    → start ≤ size
    → (start % 8 ≡ 0) ⊎ (bytes (start / 8) ≢ 0)
    → First (get_bit bytes) start size (next_setted_bit bytes size start)
unfolding next_setted_bit get_bit
next_setted_bit-First bytes size start le c =
    let n : ℕ = last_byte size + 1 - start / 8 in
    let cover = last_byte-covers size in
    let whole =
      search_loop-First test_bit find_first_setted 0
        (λ byte k lt. find_setted_loop-First (8 - k) byte k 8 (omega arith))
        (λ j a b. test_bit-zero j b) bytes n (start / 8) (start % 8) ((last_byte size + 1) * 8)
        (omega arith) (omega arith) c in
    let same : start / 8 * 8 + start % 8 ≡ start = omega arith in
    in_size-First _ start ((last_byte size + 1) * 8) size _ (omega arith) (rw same at whole)

-- The search for a clear bit finds the least clear bit of the bitmap that is not below `start`,
-- and fails exactly when there is none, if `start` opens a byte or the byte of `start` has any
-- bit clear.
pub next_unsetted_bit-First :
    (bytes : Bytes) (size start : ℕ)
    → start ≤ size
    → (start % 8 ≡ 0) ⊎ (bytes (start / 8) ≢ 255)
    → First (λ i. not (get_bit bytes i)) start size (next_unsetted_bit bytes size start)
unfolding next_unsetted_bit get_bit
next_unsetted_bit-First bytes size start le c =
    let n : ℕ = last_byte size + 1 - start / 8 in
    let cover = last_byte-covers size in
    let whole =
      search_loop-First (λ byte k. not (test_bit byte k)) find_first_zero 255
        (λ byte k lt. find_zero_loop-First (8 - k) byte k 8 (omega arith))
        (λ j a b. rw (test_bit-full j b)) bytes n (start / 8) (start % 8) ((last_byte size + 1) * 8)
        (omega arith) (omega arith) c in
    let same : start / 8 * 8 + start % 8 ≡ start = omega arith in
    in_size-First _ start ((last_byte size + 1) * 8) size _ (omega arith) (rw same at whole)

-- The loop never goes back, whatever its start bit is carried over to.
search_loop-le :
    (find : ℕ → ℕ → Option ℕ) (skip : ℕ) (bytes : Bytes)
    → ((byte k b : ℕ) → find byte k ≡ some b → k ≤ b)
    → (n iter k r : ℕ) → k < 8
    → search_loop find skip bytes n iter k ≡ some r
    → iter * 8 + k ≤ r
unfolding search_loop
search_loop-le find skip bytes le zero iter k r lt e = absurd (cc)
search_loop-le find skip bytes le (suc n) iter k r lt e = elim (Bool-cases (bytes iter == skip)) [
  | inl same ↦
      let rest =
        search_loop-le find skip bytes le n (iter + 1) k r lt (rw (same, search_loop) at e) in
      omega arith
  | inr other ↦ elim (Option-cases (find (bytes iter) k)) [
    | inl missing ↦
        let rest =
          search_loop-le find skip bytes le n (iter + 1) 0 r (omega arith)
            (rw (other, search_loop, missing) at e) in
        omega arith
    | inr (b, hit) ↦
        let here : some (iter * 8 + b) ≡ some r = rw (other, search_loop, hit) at e in
        let low = le (bytes iter) k b hit in ground arith
  ]
]

in_size-some : (size k : ℕ) (r : Option ℕ) → in_size size r ≡ some k → r ≡ some k
unfolding in_size
in_size-some size k none e = absurd (cc)
in_size-some size k (some j) e = ground arith

find_first_setted-le : (byte k b : ℕ) → find_first_setted byte k ≡ some b → k ≤ b
unfolding find_first_setted
find_first_setted-le byte k b e = go (8 - k) k e
  where
    go : (n i : ℕ) → find_setted_loop n byte i ≡ some b → i ≤ b
    go zero i h = absurd (cc)
    go (suc n) i h = ground (arith, go n (i + 1))

-- The start bit is carried over from a byte that has no bit set: whenever the byte of `start` is 0
-- the search for a set bit passes over all bits below `start + 8`, also those of the next byte,
-- whether or not they are set.
pub next_setted_bit-skips :
    (bytes : Bytes) (size start : ℕ)
    → start < size
    → bytes (start / 8) ≡ 0
    → (k : ℕ) → k < start + 8
    → next_setted_bit bytes size start ≢ some k
unfolding next_setted_bit in_size
next_setted_bit-skips bytes size start lt z k below e =
    let cover = last_byte-covers size in
    let n : ℕ = last_byte size - start / 8 in
    let rounds : last_byte size + 1 - start / 8 ≡ suc n = omega arith in
    let all = in_size-some size k _ e in
    let rest : search_loop find_first_setted 0 bytes n (start / 8 + 1) (start % 8) ≡ some k =
      rw (rounds, search_loop, z) at all in
    let later =
      search_loop-le find_first_setted 0 bytes find_first_setted-le n (start / 8 + 1) (start % 8) k
        (omega arith) rest in
    absurd (omega arith)
