-- ===== src/DateUtil.antt =====
-- DateUtil of storage/common/meta_util.cpp: dates that are written as strings.
pub mod Calendar
pub mod Sorted
use atangyldb.Base.{
  ℕ, zero, suc, ◌+◌, ◌-◌, ◌*◌, ◌/◌, ◌%◌, Bool, true, false, not, ◌&&◌, ◌||◌, Option, none, some,
  if◌then◌else◌, ◌==◌, ltb, leb,
}
use atangyldb.Memory.{Bytes, offset}

abbrev pub dash : ℕ
dash = 45

abbrev pub is_digit : ℕ → Bool
is_digit c = leb 48 c && leb c 57

-- How many digits a string begins with, `n` at most.
unfoldable pub digits : ℕ → Bytes → ℕ
digits zero s = 0
digits (suc n) s = let rest = digits n (offset s 1) in if is_digit (s 0) then rest + 1 else 0

-- The match of `^[0-9]{0,4}-[0-9]{1,2}-[0-9]{1,2}$`.
unfoldable pub matches : Bytes → Bool
unfolding digits
matches s =
    let a = digits 5 s in
    let month = offset s (a + 1) in
    let b = digits 3 month in
    let day = offset month (b + 1) in
    let c = digits 3 day in
    leb a 4
    && s a == dash
    && (leb 1 b && leb b 2)
    && month b == dash
    && (leb 1 c && leb c 2)
    && day c == 0

-- The number that `n` digits at most stand for, after `acc`.
unfoldable pub number : ℕ → Bytes → ℕ → ℕ
number zero s acc = acc
number (suc n) s acc =
    let rest = number n (offset s 1) (acc * 10 + (s 0 - 48)) in if is_digit (s 0) then rest else acc

-- `atoi` in a string that matches, where a number has four digits at most; `none` is a negative number.
unfoldable pub atoi : Bytes → Option ℕ
unfolding number
atoi s =
    let v = number 4 (offset s 1) 0 in
    let negative = if v == 0 then some 0 else none in
    if s 0 == dash then negative else some (number 4 s 0)

-- `strchr(datas, '-') + 1`, where the `-` is among the first `n` characters.
unfoldable pub after_dash : ℕ → Bytes → Bytes
after_dash zero s = s
after_dash (suc n) s =
    let rest = after_dash n (offset s 1) in if s 0 == dash then offset s 1 else rest

abbrev pub leapyear : ℕ → ℕ
leapyear y = if y % 400 == 0 || (y % 4 == 0 && not (y % 100 == 0)) then 1 else 0

-- `check_dateRange`, with the bounds of `theGlobalDateUtil`.
unfoldable pub check_date_range : ℕ → ℕ → ℕ → Bool
check_date_range y m d =
    let before : Bool =
      if not (y == 2038)
      then ltb y 2038
      else if not (m == 3)
      then ltb m 3
      else if not (d == 1)
      then ltb d 1
      else true in
    if not before then false else leb 1970 y

-- The tests of a date in `Check_and_format_date`.
unfoldable pub check_date : ℕ → ℕ → ℕ → Bool
unfolding check_date_range
check_date y m d =
    let short = m == 4 || m == 6 || m == 9 || m == 11 in
    let outside =
      ltb 12 m
      || ltb m 1
      || ltb 31 d
      || ltb d 1
      || (short && ltb 30 d)
      || (m == 2 && ltb (28 + leapyear y) d) in
    if outside then false else check_date_range y m d

abbrev pub digit : ℕ → ℕ
digit v = 48 + v % 10

-- The formatted date over the old bytes: the calls of `sprintf` and the characters set after them.
unfoldable pub format_date : ℕ → ℕ → ℕ → Bytes → Bytes
format_date y m d s j =
    if j == 0
    then digit (y / 1000)
    else if j == 1
    then digit (y / 100)
    else if j == 2
    then digit (y / 10)
    else if j == 3
    then digit y
    else if j == 4
    then dash
    else if j == 5
    then digit (m / 10)
    else if j == 6
    then digit m
    else if j == 7
    then dash
    else if j == 8
    then digit (d / 10)
    else if j == 9
    then digit d
    else if j == 10
    then 0
    else if j == 11
    then 0
    else s j

-- `Check_and_format_date`: the bytes after it, or `none` for SCHEMA_FIELD_TYPE_MISMATCH.
unfoldable pub check_and_format_date : Bytes → Option Bytes
unfolding matches atoi after_dash check_date format_date
check_and_format_date s =
    let month = after_dash 5 s in
    let day = after_dash 3 month in
    let checked : ℕ → ℕ → ℕ → Option Bytes =
      λ y m d. if check_date y m d then some (format_date y m d s) else none in
    let parsed : Option Bytes = elim (atoi s) [
      | none ↦ none
      | some y ↦ elim (atoi month) [
        | none ↦ none
        | some m ↦ elim (atoi day) [ none ↦ none | some d ↦ checked y m d ]
      ]
    ] in
    if matches s then parsed else none
