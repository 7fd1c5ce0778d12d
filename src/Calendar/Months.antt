-- ===== src/Calendar/Months.antt =====
-- Every date is read off its day, and a month later is 28 to 31 days later.
use notai_api.Base.{
  Bool-cases, List, [], arith, if◌then◌else◌, inl, inr, length, ltb, suc, zero, ℕ, ◌*◌, ◌+◌, ◌-◌,
  ◌/◌, ◌<◌, ◌∙◌, ◌∷◌, ◌≡◌, ◌≤◌,
}
use notai_api.Base.Values.{Time}
use notai_api.Calendar.{
  add_month, date_of, day_ns, days_before, days_in, february, find_month, month_lengths,
  month_start, year_of,
}

year_of_bounds : (d : ℕ) → (days_before (year_of d) ≤ d) × (d < days_before (year_of d + 1))
unfolding year_of
year_of_bounds d = omega arith

abbrev sum_of : List ℕ → ℕ
sum_of [] = 0
sum_of (l ∷ ls) = l + sum_of ls

find_month_lem :
    (ls : List ℕ) (m d : ℕ)
    → d < sum_of ls
    → (j : ℕ) × ((find_month ls m d).0 ≡ m + j)
      × (j < length ls)
      × (days_in ls j + (find_month ls m d).1 ≡ d)
unfolding find_month days_in
find_month_lem [] m d h = absurd (omega arith)
find_month_lem (l ∷ ls) m d h = elim (Bool-cases (ltb d l)) [
  | inl e ↦ (0, rw e (omega arith), omega arith, rw e (omega arith))
  | inr e ↦
      let (j, p, q, r) = find_month_lem ls (m + 1) (d - l) (ground arith) in
      (suc j, rw e (omega (arith, p)), omega (arith, q), rw e (ground (arith, r)))
]

february_bounds : (y : ℕ) → (28 ≤ february y) × (february y ≤ 29)
unfolding february
february_bounds y = omega arith

year_length : (y : ℕ) → days_before y + sum_of (month_lengths y) ≡ days_before (y + 1)
unfolding month_lengths february
year_length y = omega arith

-- The first of the next month, as add_month finds it.
abbrev next_start : ℕ → ℕ → ℕ
next_start y m = if ltb m 11 then month_start y (m + 1) else month_start (y + 1) 0

next_start_bounds :
    (y m : ℕ)
    → m < 12
    → (month_start y m + 28 ≤ next_start y m) × (next_start y m ≤ month_start y m + 31)
unfolding month_start
next_start_bounds y zero h = omega (arith, february_bounds y, year_length y)
next_start_bounds y (suc zero) h = omega (arith, february_bounds y, year_length y)
next_start_bounds y (suc (suc zero)) h = omega (arith, february_bounds y, year_length y)
next_start_bounds y (suc (suc (suc zero))) h = omega (arith, february_bounds y, year_length y)
next_start_bounds y (suc (suc (suc (suc zero)))) h = omega (arith, february_bounds y, year_length y)
next_start_bounds y (suc (suc (suc (suc (suc zero))))) h =
    omega (arith, february_bounds y, year_length y)
next_start_bounds y (suc (suc (suc (suc (suc (suc zero)))))) h =
    omega (arith, february_bounds y, year_length y)
next_start_bounds y (suc (suc (suc (suc (suc (suc (suc zero))))))) h =
    omega (arith, february_bounds y, year_length y)
next_start_bounds y (suc (suc (suc (suc (suc (suc (suc (suc zero)))))))) h =
    omega (arith, february_bounds y, year_length y)
next_start_bounds y (suc (suc (suc (suc (suc (suc (suc (suc (suc zero))))))))) h =
    omega (arith, february_bounds y, year_length y)
next_start_bounds y (suc (suc (suc (suc (suc (suc (suc (suc (suc (suc zero)))))))))) h =
    omega (arith, february_bounds y, year_length y)
next_start_bounds y (suc (suc (suc (suc (suc (suc (suc (suc (suc (suc (suc zero))))))))))) h =
    omega (arith, february_bounds y, year_length y)
next_start_bounds y (suc (suc (suc (suc (suc (suc (suc (suc (suc (suc (suc (suc m)))))))))))) h =
    absurd (omega arith)

date_of_lem :
    (d : ℕ) → let c = date_of d in (c.month < 12) × (month_start c.year c.month + c.day ≡ d)
unfolding date_of month_start
date_of_lem d =
    let y = year_of d in
    let (lo, hi) = year_of_bounds d in
    let (j, p, q, r) =
      find_month_lem (month_lengths y) 0 (d - days_before y)
        (omega (arith, lo, hi, year_length y)) in
    let e : (date_of d).month ≡ j = p ∙ omega arith in rw e (omega (arith, q), omega (arith, r, lo))

-- Adding a month to a time gives a time that is 28 to 31 days later.
pub add_month_bounds :
    (t : Time) → (t + 28 * day_ns ≤ add_month t) × (add_month t ≤ t + 31 * day_ns)
unfolding add_month
add_month_bounds t =
    let (p, q) = date_of_lem (t / day_ns) in
    let (r, s) = next_start_bounds (date_of (t / day_ns)).year (date_of (t / day_ns)).month p in
    (omega (arith, q, r), omega (arith, q, s))
