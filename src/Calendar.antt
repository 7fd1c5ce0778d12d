-- ===== src/Calendar.antt =====
-- The calendar of Go's package time, in UTC, and the quota period that is counted in its months
-- (internal/domain/subscription/quota_period.go).
pub mod Months
pub mod Period
mod Tests
use notai_api.Base.{
  List, [], if◌then◌else◌, ltb, min, suc, zero, ℕ, ◌%◌, ◌*◌, ◌+◌, ◌-◌, ◌/◌, ◌==◌, ◌∷◌,
}
use notai_api.Base.Values.{Time}

-- A day of the calendar: full years since year 1, full months since January, full days since the
-- first of the month.
pub record Date : Type 0 where
  pub year : ℕ
  pub month : ℕ
  pub day : ℕ

abbrev pub day_ns : ℕ
day_ns = 86_400_000_000_000

-- The days of the first y years.
abbrev pub days_before : ℕ → ℕ
days_before y = 365 * y + y / 4 - y / 100 + y / 400

-- The length of February after y full years.
unfoldable pub february : ℕ → ℕ
february y = days_before (y + 1) - days_before y - 337

unfoldable pub month_lengths : ℕ → List ℕ
unfolding february
month_lengths y = 31 ∷ february y ∷ 31 ∷ 30 ∷ 31 ∷ 30 ∷ 31 ∷ 31 ∷ 30 ∷ 31 ∷ 30 ∷ 31 ∷ []

-- The month and the day of the month of a day of the year.
unfoldable pub find_month : List ℕ → ℕ → ℕ → ℕ × ℕ
find_month [] m d = (m, d)
find_month (l ∷ ls) m d =
    let rest = find_month ls (m + 1) (d - l) in if ltb d l then (m, d) else rest

-- The days of the first m months.
unfoldable pub days_in : List ℕ → ℕ → ℕ
days_in [] m = 0
days_in (l ∷ ls) zero = 0
days_in (l ∷ ls) (suc m) = l + days_in ls m

-- The full years of a day, as package time counts them: by 400, 100, 4 and 1.
unfoldable pub year_of : ℕ → ℕ
year_of d =
    let a = d / 146097 in
    let r = d % 146097 in
    let b = min (r / 36524) 3 in
    let s = r - 36524 * b in
    let c = s / 1461 in let t = s % 1461 in 400 * a + 100 * b + 4 * c + min (t / 365) 3

-- Time.Date
unfoldable pub date_of : ℕ → Date
unfolding year_of
date_of d =
    let y = year_of d in
    let (m, k) = find_month (month_lengths y) 0 (d - days_before y) in
    record { year = y; month = m; day = k }

-- The days before the first of a month, of those that time.Date is called with.
unfoldable pub month_start : ℕ → ℕ → ℕ
unfolding month_lengths days_in
month_start y m = days_before y + days_in (month_lengths y) m

-- AddDate(0, 1, 0): the same day of the next month, where days beyond its end run on.
unfoldable pub add_month : Time → Time
unfolding month_start
add_month t =
    let d = date_of (t / day_ns) in
    let first =
      if ltb d.month 11 then month_start d.year (d.month + 1) else month_start (d.year + 1) 0 in
    (first + d.day) * day_ns + t % day_ns

-- The first instant of the month of a time.
unfoldable pub month_floor : Time → Time
unfolding date_of month_start
month_floor t = let d = date_of (t / day_ns) in month_start d.year d.month * day_ns

-- The loop of CurrentQuotaPeriod.
unfoldable pub period_from : ℕ → Time → Time → Time × Time
period_from zero now start = (start, add_month start)
period_from (suc fuel) now start =
    let next = add_month start in
    let rest = period_from fuel now next in if ltb now next then (start, next) else rest

-- A month has at least 28 days, so that the loop makes fewer rounds than this.
abbrev pub period_fuel : Time → Time → ℕ
period_fuel anchor now = (now - anchor) / (28 * day_ns) + 1

unfoldable pub current_quota_period : Time → Time → Time × Time
unfolding month_floor
current_quota_period anchor now =
    if anchor == 0
    then (month_floor now, add_month (month_floor now))
    else if ltb now anchor
    then (anchor, add_month anchor)
    else period_from (period_fuel anchor now) now anchor
