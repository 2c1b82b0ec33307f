-- ===== src/DateUtil/Calendar.antt =====
-- Which dates `DateUtil` of meta_util.cpp accepts.
use atangyldb.Base.{ℕ, ◌+◌, ◌||◌, if◌then◌else◌, ◌==◌}
use atangyldb.DateUtil.{leapyear}

-- The number of days of a month of the Gregorian calendar.
abbrev pub days_in : ℕ → ℕ → ℕ
days_in y m =
    if m == 2 then 28 + leapyear y else if m == 4 || m == 6 || m == 9 || m == 11 then 30 else 31
