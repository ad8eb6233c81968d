-- ===== src/Rtl/Time/Dates.antt =====
-- A day falls on one date only.
use exectos.Base.{
  subst, ℕ, zero, suc, ◌+◌, ◌≤◌, ◌<◌, ◌≡◌, ap, Bool, ltb, if◌then◌else◌, Bool-cases, inl, inr,
  arith, List, [], ◌∷◌, get_or,
}
use exectos.Rtl.Time.{leap_year, days_in_month}
use exectos.Rtl.Time.Calendar.{year_start, leap_day}
use exectos.Rtl.Time.Months.{month_start, leap_day_lem}
use exectos.Rtl.Time.Epoch.{Date}

year_start_lt :
    (k l : ℕ) → k < l → k < 30000 → year_start k + 365 + leap_day (1601 + k) ≤ year_start l
year_start_lt k l h small =
    let next : year_start k + 365 + leap_day (1601 + k) ≡ year_start (suc k) =
      omega (arith, leap_day_lem k small) in
    let later : year_start (suc k) ≤ year_start l = omega arith in omega arith

month_start_lt :
    (xs : List ℕ) (i j : ℕ) → i < j → month_start xs i + get_or xs i 0 ≤ month_start xs j
month_start_lt [] i j h = omega arith
month_start_lt (x ∷ xs) i zero h = absurd (omega arith)
month_start_lt (x ∷ xs) zero (suc j) h = omega arith
month_start_lt (x ∷ xs) (suc i) (suc j) h = omega (arith, month_start_lt xs i j (omega arith))

-- The months of a year, up to the end of it.
pub month_start-length :
    (leap : Bool) (i : ℕ)
    → i < 12
    → month_start (days_in_month leap) i + get_or (days_in_month leap) i 0
      ≤ 365 + (if leap then 1 else 0)
month_start-length leap i h =
    let whole : month_start (days_in_month leap) 12 ≡ 365 + (if leap then 1 else 0) =
      ground arith in
    omega (arith, month_start_lt (days_in_month leap) i 12 h, whole)

module _ (days : ℕ) {k i r k' i' r' : ℕ} where
  before_year : Date days k i r → Date days k' i' r' → k < k' → ⊥
  before_year a b h = omega (
    arith,
    a.days_is,
    b.days_is,
    a.rest_lt,
    month_start-length (leap_year (1601 + k)) i a.index_lt,
    year_start_lt k k' h (omega (arith, a.k_lt)),
  )

  after_year : Date days k i r → Date days k' i' r' → k' < k → ⊥
  after_year a b h = omega (
    arith,
    a.days_is,
    b.days_is,
    b.rest_lt,
    month_start-length (leap_year (1601 + k')) i' b.index_lt,
    year_start_lt k' k h (omega (arith, b.k_lt)),
  )

  year_unique : Date days k i r → Date days k' i' r' → k ≡ k'
  year_unique a b = elim (Bool-cases (ltb k k')) [
    | inl before ↦ absurd (before_year a b (ground arith))
    | inr other ↦ elim (Bool-cases (ltb k' k)) [
      | inl after ↦ absurd (after_year a b (ground arith))
      | inr same ↦ ground arith
    ]
  ]

module _ (days k : ℕ) {i r i' r' : ℕ} (a : Date days k i r) (b : Date days k i' r') where
  -- Within a year a day falls into one month.
  month_unique : i ≡ i'
  month_unique =
      let table = days_in_month (leap_year (1601 + k)) in
      elim (Bool-cases (ltb i i')) [
        | inl before ↦
            let h : i < i' = ground arith in
            absurd (omega (arith, a.days_is, b.days_is, a.rest_lt, month_start_lt table i i' h))
        | inr other ↦ elim (Bool-cases (ltb i' i)) [
          | inl after ↦
              let h : i' < i = ground arith in
              absurd (omega (arith, a.days_is, b.days_is, b.rest_lt, month_start_lt table i' i h))
          | inr same ↦ ground arith
        ]
      ]

  rest_unique : r ≡ r'
  rest_unique = omega (
    arith,
    a.days_is,
    b.days_is,
    ap (month_start (days_in_month (leap_year (1601 + k)))) month_unique,
  )

pub Date-unique :
    (days : ℕ) {k i r k' i' r' : ℕ}
    → Date days k i r
    → Date days k' i' r'
    → (k ≡ k') × (i ≡ i') × (r ≡ r')
Date-unique days {i = i} {r = r} {k' = k'} a b =
    let same = year_unique days a b in
    let a' : Date days k' i r = subst (λ t. Date days t i r) same a in
    (same, month_unique days k' a' b, rest_unique days k' a' b)
