-- ===== src/Rtl/Time/Months.antt =====
-- The months of a year: the search for the month of a day, and the day number of a date.
use exectos.Base.{
  ℕ, zero, suc, ◌+◌, ◌-◌, ◌*◌, ◌/◌, ◌^◌, ◌≤◌, ◌<◌, ◌≡◌, ap, ◌∙◌, Bool, false, Option, some, leb,
  if◌then◌else◌, Bool-cases, inl, inr, arith, List, [], ◌∷◌, length, get_or,
}
use exectos.Rtl.Time.{leap_year, days_in_month, day_number, find_month}
use exectos.Rtl.Time.Calendar.{year_start, leap_day}

-- The days of the first `j` months.
abbrev pub month_start : List ℕ → ℕ → ℕ
month_start [] j = 0
month_start (x ∷ xs) zero = 0
month_start (x ∷ xs) (suc j) = x + month_start xs j

-- The month found, and the day in it.
pub record Found (table : List ℕ) (month days : ℕ) (result : Option (ℕ × ℕ)) : Type 0 where
  pub index : ℕ
  pub rest : ℕ
  pub result_is : result ≡ some (month + index, rest)
  pub days_is : days ≡ month_start table index + rest
  pub rest_lt : rest < get_or table index 0
  pub index_lt : index < length table

pub find_month-Found :
    (table : List ℕ) (month days : ℕ)
    → days < month_start table (length table)
    → Found table month days (find_month table month days)
unfolding find_month
find_month-Found [] month days h = absurd (omega arith)
find_month-Found (x ∷ xs) month days h = elim (Bool-cases (leb x days)) [
  | inr here ↦ record {
    index = 0;
    rest = days;
    result_is = rw here (ap (λ t. some (t, days)) (let e : month ≡ month + 0 = omega arith in e));
    days_is = omega arith;
    rest_lt = ground arith;
    index_lt = omega arith;
  }
  | inl later ↦
      let f = find_month-Found xs (suc month) (days - x) (ground arith) in
      record {
        index = suc f.index;
        rest = f.rest;
        result_is = rw later (
            f.result_is
            ∙ ap (λ t. some (t, f.rest))
                (let e : suc month + f.index ≡ month + suc f.index = omega arith in e));
        days_is = ground (arith, f.days_is);
        rest_lt = f.rest_lt;
        index_lt = omega (arith, f.index_lt);
      }
]

-- A leap day is one that the cycles of 4, 100 and 400 years count.
pub leap_day_lem :
    (k : ℕ)
    → k < 30000
    → (1601 + k) / 4 - (1601 + k) / 100 + (1601 + k) / 400
      ≡ 388 + k / 4 - k / 100 + k / 400 + leap_day (1601 + k)
unfolding leap_year
leap_day_lem k h =
    let small : leb (2 ^ 15) (1601 + k) ≡ false = ground arith in rw small (ground arith)

-- From March on the leap day of the year is counted.
day_number-late :
    (k month day : ℕ)
    → k < 30000
    → 3 ≤ month
    → day_number (1601 + k) month day
      ≡ 584753 + year_start k + leap_day (1601 + k) + 367 * (month - 2) / 12 + day
unfolding day_number
day_number-late k month day h i =
    let late : leb month 2 ≡ false = ground arith in rw late (omega (arith, leap_day_lem k h))

february : (leap : Bool) → (if leap then 29 else 28) ≡ 28 + (if leap then 1 else 0)
february leap = ground arith

-- The day number of a date is that of the first day of its year, and the days before it in the
-- year.
pub day_number_lem :
    (k index rest : ℕ)
    → k < 30000
    → index < 12
    → day_number (1601 + k) (suc index) (suc rest)
      ≡ 584725 + year_start k + month_start (days_in_month (leap_year (1601 + k))) index + rest
unfolding day_number
day_number_lem k zero rest h i = omega arith
day_number_lem k (suc zero) rest h i = omega arith
day_number_lem k (suc (suc zero)) rest h i =
    omega (arith, day_number-late k 3 (suc rest) h (omega arith), february (leap_year (1601 + k)))
day_number_lem k (suc (suc (suc zero))) rest h i =
    omega (arith, day_number-late k 4 (suc rest) h (omega arith), february (leap_year (1601 + k)))
day_number_lem k (suc (suc (suc (suc zero)))) rest h i =
    omega (arith, day_number-late k 5 (suc rest) h (omega arith), february (leap_year (1601 + k)))
day_number_lem k (suc (suc (suc (suc (suc zero))))) rest h i =
    omega (arith, day_number-late k 6 (suc rest) h (omega arith), february (leap_year (1601 + k)))
day_number_lem k (suc (suc (suc (suc (suc (suc zero)))))) rest h i =
    omega (arith, day_number-late k 7 (suc rest) h (omega arith), february (leap_year (1601 + k)))
day_number_lem k (suc (suc (suc (suc (suc (suc (suc zero))))))) rest h i =
    omega (arith, day_number-late k 8 (suc rest) h (omega arith), february (leap_year (1601 + k)))
day_number_lem k (suc (suc (suc (suc (suc (suc (suc (suc zero)))))))) rest h i =
    omega (arith, day_number-late k 9 (suc rest) h (omega arith), february (leap_year (1601 + k)))
day_number_lem k (suc (suc (suc (suc (suc (suc (suc (suc (suc zero))))))))) rest h i =
    omega (arith, day_number-late k 10 (suc rest) h (omega arith), february (leap_year (1601 + k)))
day_number_lem k (suc (suc (suc (suc (suc (suc (suc (suc (suc (suc zero)))))))))) rest h i =
    omega (arith, day_number-late k 11 (suc rest) h (omega arith), february (leap_year (1601 + k)))
day_number_lem k (suc (suc (suc (suc (suc (suc (suc (suc (suc (suc (suc zero))))))))))) rest h i =
    omega (arith, day_number-late k 12 (suc rest) h (omega arith), february (leap_year (1601 + k)))
day_number_lem k (suc (suc (suc (suc (suc (suc (suc (suc (suc (suc (suc (suc index)))))))))))) rest
      h i =
    absurd (omega arith)
