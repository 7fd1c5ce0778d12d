-- ===== src/Calendar/Tests.antt =====
-- Quota periods of chosen anchors.
use notai_api.Base.{arith, refl, ◌*◌, ◌+◌, ◌<◌, ◌≡◌, ◌≤◌}
use notai_api.Base.Values.{Time}
use notai_api.Calendar.{add_month, current_quota_period, date_of, day_ns, find_month}
use notai_api.Calendar.Months.{add_month_bounds}
use notai_api.Calendar.Period.{IsMonthsAfter, current_quota_period_lem}

-- 31 January of the year 1, and 1 April.
abbrev anchor : Time
anchor = 30 * day_ns

abbrev present : Time
present = 90 * day_ns

current_quota_period_lem_example :
    let (s, e) = current_quota_period anchor present in
    IsMonthsAfter anchor s × (s ≤ present) × (present < e) × (e ≡ add_month s)
current_quota_period_lem_example =
    current_quota_period_lem anchor present (omega arith) (omega arith)

add_month_bounds_example :
    (anchor + 28 * day_ns ≤ add_month anchor) × (add_month anchor ≤ anchor + 31 * day_ns)
add_month_bounds_example = add_month_bounds anchor

-- A month after 31 January is 31 February, which runs on to 3 March.
runs_on : add_month anchor ≡ 61 * day_ns
unfolding add_month date_of find_month
runs_on = refl
