-- ===== src/Timestamp.antt =====
-- The moments of Python's `datetime` and how `_utc_timestamp` of app/core/errors.py prints them.
pub mod Calendar
pub mod RoundTrip
use python_typescript_wiki_b.Base.{
  ℕ, zero, suc, ◌+◌, ◌-◌, ◌*◌, ◌/◌, ◌%◌, Bool, ◌&&◌, ◌||◌, not, List, [], ◌∷◌, ◌++◌, ltb, ◌==◌,
  if◌then◌else◌,
}
use python_typescript_wiki_b.Text.{Str}

unfoldable pub is_leap : ℕ → Bool
is_leap year = year % 4 == 0 && (not (year % 100 == 0) || year % 400 == 0)

-- The days before the first of January of a year.
unfoldable pub days_before_year : ℕ → ℕ
days_before_year year = (year - 1) * 365 + (year - 1) / 4 - (year - 1) / 100 + (year - 1) / 400

abbrev pub month_lengths : Bool → List ℕ
month_lengths leap =
    31 ∷ (if leap then 29 else 28) ∷ 31 ∷ 30 ∷ 31 ∷ 30 ∷ 31 ∷ 31 ∷ 30 ∷ 31 ∷ 30 ∷ 31 ∷ []

abbrev pub days_before_month : List ℕ → ℕ → ℕ
days_before_month [] m = 0
days_before_month (l ∷ ls) zero = 0
days_before_month (l ∷ ls) (suc m) = l + days_before_month ls m

-- The year of a day, and the days of the year before it: cycles of 400, 100, 4 years, and years.
unfoldable pub year_and_day : ℕ → ℕ × ℕ
year_and_day n =
    let year =
      n / 146097 * 400
      + n % 146097 / 36524 * 100
      + n % 146097 % 36524 / 1461 * 4
      + n % 146097 % 36524 % 1461 / 365 in
    if n % 146097 / 36524 == 4 || n % 146097 % 36524 % 1461 / 365 == 4
    then (year, 365)
    else (suc year, n % 146097 % 36524 % 1461 % 365)

-- The month of a day of the year, and the days of the month before it, both from 0.
unfoldable pub month_and_day : List ℕ → ℕ → ℕ × ℕ
month_and_day [] n = (0, n)
month_and_day (l ∷ ls) n =
    let (m, d) = month_and_day ls (n - l) in if ltb n l then (0, n) else (suc m, d)

abbrev digit : ℕ → ℕ
digit d = b'0' + d

abbrev pub two_digits : ℕ → Str
two_digits v = digit (v / 10) ∷ digit (v % 10) ∷ []

abbrev pub four_digits : ℕ → Str
four_digits v = digit (v / 1000) ∷ digit (v / 100 % 10) ∷ digit (v / 10 % 10) ∷ digit (v % 10) ∷ []

abbrev pub date : ℕ → ℕ × ℕ → Str
date year (m, d) = four_digits year ++ b'-' ∷ two_digits (suc m) ++ b'-' ∷ two_digits (suc d)

abbrev pub time : ℕ → Str
time second =
    two_digits (second / 3600)
    ++ b':' ∷ two_digits (second / 60 % 60)
    ++ b':' ∷ two_digits (second % 60)

abbrev pub date_of_day : ℕ × ℕ → Str
date_of_day (year, day) = date year (month_and_day (month_lengths (is_leap year)) day)

-- `datetime.now(timezone.utc).replace(microsecond=0).isoformat().replace("+00:00", "Z")`, for a
-- clock that shows `now` in microseconds since 0001-01-01.
unfoldable pub utc_timestamp : ℕ → Str
unfolding is_leap year_and_day month_and_day
utc_timestamp now =
    date_of_day (year_and_day (now / 86400000000))
    ++ b'T' ∷ time (now / 1000000 % 86400)
    ++ b'Z' ∷ []
