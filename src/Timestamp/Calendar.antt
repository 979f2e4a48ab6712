-- ===== src/Timestamp/Calendar.antt =====
-- Days and dates: the calendar of `datetime`, there and back.
use python_typescript_wiki_b.Base.{
  ℕ, ◌+◌, ◌-◌, ◌≤◌, ◌<◌, ◌≡◌, Bool, true, false, Bool-cases, List, [], ◌∷◌, inl, inr, arith, ltb,
  length, if◌then◌else◌,
}
use python_typescript_wiki_b.Timestamp.{
  is_leap, days_before_year, month_lengths, days_before_month, year_and_day, month_and_day,
}

-- The days of a year, with the day of the year, count the days.
pub days_before_year-year_and_day :
    (n : ℕ) → days_before_year (year_and_day n).0 + (year_and_day n).1 ≡ n
unfolding days_before_year year_and_day
days_before_year-year_and_day n = ground arith

abbrev year_length : Bool → ℕ
year_length leap = if leap then 366 else 365

year_and_day_bound : (n : ℕ) → (year_and_day n).1 < year_length (is_leap (year_and_day n).0)
unfolding is_leap year_and_day
year_and_day_bound n = ground arith

pub days_before_month-month_and_day :
    (ls : List ℕ) (n : ℕ) → days_before_month ls (month_and_day ls n).0 + (month_and_day ls n).1 ≡ n
unfolding month_and_day
days_before_month-month_and_day [] n = omega arith
days_before_month-month_and_day (l ∷ ls) n =
    ground (arith, days_before_month-month_and_day ls (n - l))

abbrev total : List ℕ → ℕ
total [] = 0
total (l ∷ ls) = l + total ls

abbrev AtMost : ℕ → List ℕ → Type 0
AtMost k [] = Unit
AtMost k (l ∷ ls) = (l ≤ k) × AtMost k ls

month_and_day_bound :
    (k : ℕ) (ls : List ℕ) (n : ℕ)
    → AtMost k ls
    → n < total ls
    → ((month_and_day ls n).0 < length ls) × ((month_and_day ls n).1 < k)
unfolding month_and_day
month_and_day_bound k [] n short h = absurd (omega arith)
month_and_day_bound k (l ∷ ls) n short h = elim (Bool-cases (ltb n l)) [
  | inl inside ↦ ground (arith, inside, short.0)
  | inr outside ↦ ground (arith, outside, month_and_day_bound k ls (n - l) short.1)
]

-- The month and the day within it, of a day that `year_and_day` found.
pub month_and_day-year_and_day_bound :
    (n : ℕ)
    → ((month_and_day (month_lengths (is_leap (year_and_day n).0)) (year_and_day n).1).0 < 12)
      × ((month_and_day (month_lengths (is_leap (year_and_day n).0)) (year_and_day n).1).1 < 31)
month_and_day-year_and_day_bound n =
    of_length (is_leap (year_and_day n).0) (year_and_day n).1 (year_and_day_bound n)
  where
    of_length :
        (leap : Bool) (day : ℕ)
        → day < year_length leap
        → ((month_and_day (month_lengths leap) day).0 < 12)
          × ((month_and_day (month_lengths leap) day).1 < 31)
    of_length true day h =
        month_and_day_bound 31 (month_lengths true) day (ground arith) (omega (arith, h))
    of_length false day h =
        month_and_day_bound 31 (month_lengths false) day (ground arith) (omega (arith, h))
