-- ===== src/Rtl/Time/Calendar.antt =====
-- The calendar: the days of the years from 1601 on, and how a day number falls into a year and a
-- month.
use exectos.Base.{
  ℕ, ◌+◌, ◌-◌, ◌*◌, ◌/◌, ◌%◌, ◌^◌, ◌≤◌, ◌<◌, ◌≡◌, Bool, false, not, ◌&&◌, ◌||◌, ◌==◌, leb,
  if◌then◌else◌, arith,
}
use exectos.Rtl.Time.{leap_year, find_year}

-- The days from 1 January 1601 to 1 January of the year 1601 + `k`.
abbrev pub year_start : ℕ → ℕ
year_start k = 365 * k + k / 4 - k / 100 + k / 400

abbrev pub leap_day : ℕ → ℕ
leap_day year = if leap_year year then 1 else 0

-- A cycle of 400 years: `b` centuries, `c` times four years and `e` years.
leap_year-cycle :
    (a b c e : ℕ)
    → b < 4
    → c < 25
    → e < 4
    → 400 * a + 100 * b + 4 * c + e < 30000
    → leap_year (1601 + (400 * a + 100 * b + 4 * c + e)) ≡ (e == 3) && (not (c == 24) || b == 3)
unfolding leap_year
leap_year-cycle a b c e hb hc he h =
    let y = 1601 + (400 * a + 100 * b + 4 * c + e) in
    let small : leb (2 ^ 15) y ≡ false = ground arith in
    let four : y % 4 ≡ (1 + e) % 4 = omega arith in
    let hundred : y % 100 ≡ (1 + 4 * c + e) % 100 = omega arith in
    let all : y % 400 ≡ (1 + 100 * b + 4 * c + e) % 400 = omega arith in
    rw small (ground (arith, four, hundred, all))

-- The parts of a day number.
record Parts (days year rest : ℕ) : Type 0 where
  a : ℕ
  b : ℕ
  c : ℕ
  e : ℕ
  year_is : year ≡ 1601 + (400 * a + 100 * b + 4 * c + e)
  days_is : days ≡ 146097 * a + 36524 * b + 1461 * c + 365 * e + rest
  b_lt : b < 4
  c_lt : c < 25
  e_lt : e < 4
  rest_lt : rest < 365 + (if (e == 3) && (not (c == 24) || b == 3) then 1 else 0)

-- The years of a cycle, the last one a day longer.
abbrev capped : ℕ → ℕ
capped periods = if periods == 4 then 3 else periods

centuries :
    (n : ℕ)
    → n < 146097
    → let b = capped (n / 36524) in
      (b < 4) × (b * 36524 ≤ n) × (n < b * 36524 + 36524 + (if b == 3 then 1 else 0))
centuries n h = (ground arith, ground arith, ground arith)

years :
    (n : ℕ)
    → n < 1461
    → let e = capped (n / 365) in
      (e < 4) × (e * 365 ≤ n) × (n < e * 365 + 365 + (if e == 3 then 1 else 0))
years n h = (ground arith, ground arith, ground arith)

last_day :
    (b c e d3 : ℕ)
    → 1461 * c + d3 < 36524 + (if b == 3 then 1 else 0)
    → c < 25
    → d3 < e * 365 + 365 + (if e == 3 then 1 else 0)
    → e * 365 ≤ d3
    → d3 - e * 365 < 365 + (if (e == 3) && (not (c == 24) || b == 3) then 1 else 0)
last_day b c e d3 h k i j = ground arith

one_at_most : (x : Bool) → (if x then 1 else 0) ≤ 1
one_at_most x = ground arith

find_year-Parts : (days : ℕ) → days < 10675200 → Parts days (find_year days).0 (find_year days).1
unfolding find_year
find_year-Parts days h =
    let word : days % 2 ^ 32 ≡ days = omega arith in
    let (b_lt, b_le, b_top) = centuries (days % 146097) (omega arith) in
    let d2 = days % 146097 - capped (days % 146097 / 36524) * 36524 in
    let (e_lt, e_le, e_top) = years (d2 % 1461) (omega arith) in
    let split : 1461 * (d2 / 1461) + d2 % 1461 ≡ d2 = omega arith in
    let last = capped (days % 146097 / 36524) == 3 in
    let top : d2 < 36524 + (if last then 1 else 0) = omega (arith, b_le, b_top) in
    let c_lt : d2 / 1461 < 25 = omega (arith, top, one_at_most last) in
    rw word (record {
      a = days / 146097;
      b = capped (days % 146097 / 36524);
      c = d2 / 1461;
      e = capped (d2 % 1461 / 365);
      year_is = omega arith;
      days_is = omega (arith, b_le, e_le, split);
      b_lt = b_lt;
      c_lt = c_lt;
      e_lt = e_lt;
      rest_lt =
          last_day (capped (days % 146097 / 36524)) (d2 / 1461) (capped (d2 % 1461 / 365))
            (d2 % 1461) (omega (arith, split, top)) c_lt e_top e_le;
    })

-- What a cycle's parts say of the year and of the day within it.
pub find_year_lem :
    (days : ℕ)
    → days < 10675200
    → (k : ℕ) × ((find_year days).0 ≡ 1601 + k)
      × (k < 29228)
      × (days ≡ year_start k + (find_year days).1)
      × ((find_year days).1 < 365 + leap_day (1601 + k))
find_year_lem days h =
    let p = find_year-Parts days h in
    let k = 400 * p.a + 100 * p.b + 4 * p.c + p.e in
    let k_lt : k < 29228 = omega (arith, p.days_is, p.b_lt, p.c_lt, p.e_lt) in
    (
      k,
      p.year_is,
      k_lt,
      omega (arith, p.days_is, p.b_lt, p.c_lt, p.e_lt),
      rw (leap_year-cycle p.a p.b p.c p.e p.b_lt p.c_lt p.e_lt (omega arith)) p.rest_lt,
    )
