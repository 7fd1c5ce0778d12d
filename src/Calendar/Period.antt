-- ===== src/Calendar/Period.antt =====
-- The quota period that CurrentQuotaPeriod finds.
use notai_api.Base.{
  Bool-cases, arith, false, inl, inr, ltb, ltb_false→le, ltb→lt, refl, suc, zero, ℕ, ◌*◌, ◌-◌, ◌<◌,
  ◌==◌, ◌≡◌, ◌≤◌,
}
use notai_api.Base.Values.{Time}
use notai_api.Calendar.{add_month, current_quota_period, day_ns, period_from, period_fuel}
use notai_api.Calendar.Months.{add_month_bounds}

-- A time that is reached from an anchor by adding months, one after the other.
pub data IsMonthsAfter (anchor : Time) : Time → Type 0 where
  here : IsMonthsAfter anchor anchor
  a_month_on : {t : Time} → IsMonthsAfter anchor t → IsMonthsAfter anchor (add_month t)

period_from_lem :
    (anchor : Time) (fuel : ℕ) (now start : Time)
    → IsMonthsAfter anchor start
    → start ≤ now
    → now - start < fuel * (28 * day_ns)
    → let (s, e) = period_from fuel now start in
      IsMonthsAfter anchor s × (s ≤ now) × (now < e) × (e ≡ add_month s)
unfolding period_from
period_from_lem anchor zero now start r h f = absurd (omega arith)
period_from_lem anchor (suc fuel) now start r h f = elim (Bool-cases (ltb now (add_month start))) [
  | inl e ↦ rw e (r, h, ltb→lt now (add_month start) e, refl)
  | inr e ↦
      let past = ltb_false→le now (add_month start) e in
      rw e (
        period_from_lem anchor fuel now (add_month start) (a_month_on r) past
          (omega (arith, past, add_month_bounds start)))
]

-- From an anchor that is set and not in the future, the loop of CurrentQuotaPeriod ends, and it ends
-- with the period that holds the present: its start is a number of months after the anchor and not
-- in the future, its end is a month later and in the future.
pub current_quota_period_lem :
    (anchor now : Time)
    → 0 < anchor
    → anchor ≤ now
    → let (s, e) = current_quota_period anchor now in
      IsMonthsAfter anchor s × (s ≤ now) × (now < e) × (e ≡ add_month s)
unfolding current_quota_period
current_quota_period_lem anchor now h k =
    let e : (anchor == 0) ≡ false = ground arith in
    let f : ltb now anchor ≡ false = ground arith in
    rw e (rw f (period_from_lem anchor (period_fuel anchor now) now anchor here k (omega arith)))
