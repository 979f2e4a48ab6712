-- ===== src/Timestamp/RoundTrip.antt =====
-- The timestamp of an error body, read back by its format: YYYY-MM-DDThh:mm:ssZ.
use python_typescript_wiki_b.Base.{
  ℕ, suc, ◌+◌, ◌-◌, ◌*◌, ◌/◌, ◌%◌, ◌≤◌, ◌<◌, ◌≡◌, ap, ◌∙◌, Bool, ◌&&◌, Option, none, some, [], ◌∷◌,
  ◌++◌, arith, leb, ◌==◌, if◌then◌else◌,
}
use python_typescript_wiki_b.Text.{Str}
use python_typescript_wiki_b.App.{datetime_max}
use python_typescript_wiki_b.Timestamp.{
  is_leap, days_before_year, month_lengths, days_before_month, year_and_day, month_and_day, date,
  time, utc_timestamp,
}
use python_typescript_wiki_b.Timestamp.Calendar.{
  days_before_year-year_and_day, days_before_month-month_and_day, month_and_day-year_and_day_bound,
}

abbrev is_digit : ℕ → Bool
is_digit c = leb b'0' c && leb c b'9'

unfoldable read_two : ℕ → ℕ → Option ℕ
read_two a b = if is_digit a && is_digit b then some ((a - b'0') * 10 + (b - b'0')) else none

infixl 10 ◌>>=◌
abbrev ◌>>=◌ : Option ℕ → (ℕ → Option ℕ) → Option ℕ
none >>= f = none
some v >>= f = f v

unfoldable read_four : ℕ → ℕ → ℕ → ℕ → Option ℕ
read_four a b c d = do high ← read_two a b; low ← read_two c d; some (high * 100 + low)

-- The microseconds before a second of a date.
abbrev moment_of : ℕ → ℕ → ℕ → ℕ → ℕ
moment_of year month day second =
    ((days_before_year year + days_before_month (month_lengths (is_leap year)) month + day) * 86400
      + second)
    * 1000000

-- The moment that a timestamp names, if the text is one.
pub read_timestamp : Str → Option ℕ
read_timestamp
      (y3 ∷ y2 ∷ y1 ∷ y0 ∷ p ∷ m1 ∷ m0 ∷ q ∷ d1 ∷ d0 ∷ t ∷ h1 ∷ h0 ∷ r ∷ n1 ∷ n0 ∷ s ∷ s1 ∷ s0 ∷ z
        ∷ []) =
    if p == b'-' && q == b'-' && t == b'T' && r == b':' && s == b':' && z == b'Z'
    then (do
      year ← read_four y3 y2 y1 y0
      month ← read_two m1 m0
      day ← read_two d1 d0
      hour ← read_two h1 h0
      minute ← read_two n1 n0
      second ← read_two s1 s0
      some (moment_of year (month - 1) (day - 1) (hour * 3600 + minute * 60 + second)))
    else none
read_timestamp s = none

read_two-digits : (a b : ℕ) → a < 10 → b < 10 → read_two (b'0' + a) (b'0' + b) ≡ some (a * 10 + b)
unfolding read_two
read_two-digits a b h k = ground arith

read_two-two_digits : (v : ℕ) → v < 100 → read_two (b'0' + v / 10) (b'0' + v % 10) ≡ some v
read_two-two_digits v h =
    read_two-digits (v / 10) (v % 10) (omega arith) (omega arith) ∙ ap some (omega arith)

read_four-four_digits :
    (v : ℕ)
    → v < 10000
    → read_four (b'0' + v / 1000) (b'0' + v / 100 % 10) (b'0' + v / 10 % 10) (b'0' + v % 10)
      ≡ some v
unfolding read_four
read_four-four_digits v h =
    rw (read_two-digits (v / 1000) (v / 100 % 10) (omega arith) (omega arith)) (
      rw (read_two-digits (v / 10 % 10) (v % 10) (omega arith) (omega arith))
        (ap some (omega arith)))

before_suc : (n : ℕ) → suc n - 1 ≡ n
before_suc n = omega arith

split_second : (s : ℕ) → s / 3600 * 3600 + s / 60 % 60 * 60 + s % 60 ≡ s
split_second s = omega arith

read_timestamp-date :
    (year month day second : ℕ)
    → year < 10000
    → month < 12
    → day < 31
    → second < 86400
    → read_timestamp (date year (month, day) ++ b'T' ∷ time second ++ b'Z' ∷ [])
      ≡ some (moment_of year month day second)
unfolding read_timestamp
read_timestamp-date year month day second hy hm hd hs =
    rw
      (
        read_four-four_digits year hy,
        read_two-two_digits (suc month) (omega arith),
        read_two-two_digits (suc day) (omega arith),
        read_two-two_digits (second / 3600) (omega arith),
        read_two-two_digits (second / 60 % 60) (omega arith),
        read_two-two_digits (second % 60) (omega arith),
      )
      (λ i. some (moment_of year (before_suc month i) (before_suc day i) (split_second second i)))

year_bound : (n : ℕ) → n < 3652059 → (year_and_day n).0 < 10000
unfolding year_and_day
year_bound n h = ground arith

-- The timestamp that `_utc_timestamp` prints for a clock in the range of `datetime`, read as
-- YYYY-MM-DDThh:mm:ssZ in the Gregorian calendar, names the clock's moment without the fraction of
-- its second.
pub read_timestamp-utc_timestamp :
    (now : ℕ) → now ≤ datetime_max → read_timestamp (utc_timestamp now) ≡ some (now - now % 1000000)
unfolding utc_timestamp
read_timestamp-utc_timestamp now h =
    let day = now / 86400000000 in
    let (in_month, in_days) = month_and_day-year_and_day_bound day in
    read_timestamp-date (year_and_day day).0
      (month_and_day (month_lengths (is_leap (year_and_day day).0)) (year_and_day day).1).0
      (month_and_day (month_lengths (is_leap (year_and_day day).0)) (year_and_day day).1).1
      (now / 1000000 % 86400) (year_bound day (omega arith)) in_month in_days (omega arith)
    ∙ ap some (
        omega (
          arith,
          days_before_year-year_and_day day,
          days_before_month-month_and_day (month_lengths (is_leap (year_and_day day).0))
              (year_and_day day).1,
        ))
