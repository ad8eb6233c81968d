-- ===== src/Rtl/Time/Epoch.antt =====
-- The conversion of an XT time to time fields, and back.
use exectos.Base.{
  max, ℕ, zero, suc, ◌+◌, ◌-◌, ◌*◌, ◌/◌, ◌%◌, ◌^◌, ◌≤◌, ◌<◌, ◌≡◌, refl, ap, Bool, true, false, some,
  leb, Bool-cases, inl, inr, arith, List, [], ◌∷◌, get_or,
}
use exectos.Rtl.Time.{
  TimeFields, success, leap_year, days_in_month, day_number, find_year, refused, outside,
  total_seconds, time_fields_to_xt_epoch, xt_epoch_to_time_fields,
}
use exectos.Rtl.Time.Calendar.{year_start, leap_day, find_year_lem}
use exectos.Rtl.Time.Months.{month_start, find_month-Found, day_number_lem}

-- The fields of a time that falls on the day `rest` of a month of the year 1601 + `k`.
abbrev pub fields_at : ℕ → ℕ → ℕ → ℕ → TimeFields
fields_at time k index rest =
    let of_day = time / 10000000 % 86400 in
    record {
      year = 1601 + k;
      month = suc index;
      day = suc rest;
      hour = of_day / 3600;
      minute = of_day % 3600 / 60;
      second = of_day % 60;
      milliseconds = time % 10000000 / 10000;
      weekday = (time / 10000000 / 86400 + 1) % 7;
    }

-- A date of the calendar that is the given day, counted from 1601.
pub record Date (days k index rest : ℕ) : Type 0 where
  pub days_is :
      days ≡ year_start k + month_start (days_in_month (leap_year (1601 + k))) index + rest
  pub k_lt : k < 29228
  pub index_lt : index < 12
  pub rest_lt : rest < get_or (days_in_month (leap_year (1601 + k))) index 0

abbrev largest : List ℕ → ℕ
largest [] = 0
largest (x ∷ xs) = max x (largest xs)

get_or-largest : (xs : List ℕ) (i : ℕ) → get_or xs i 0 ≤ largest xs
get_or-largest [] i = omega arith
get_or-largest (x ∷ xs) zero = omega arith
get_or-largest (x ∷ xs) (suc i) = omega (arith, get_or-largest xs i)

month_most : (leap : Bool) (index : ℕ) → get_or (days_in_month leap) index 0 ≤ 31
month_most leap index =
    let most : largest (days_in_month leap) ≤ 31 = elim (Bool-cases leap) [
      | inl e ↦ rw e (omega arith)
      | inr e ↦ rw e (omega arith)
    ] in
    omega (arith, most, get_or-largest (days_in_month leap) index)

module _ (time : ℕ) (fits : time < 2 ^ 63) where
  abbrev elapsed : ℕ
  elapsed = time / 10000000 / 86400

  pub convert :
      (k : ℕ) × (index : ℕ) × (rest : ℕ) × Date elapsed k index rest
      × (xt_epoch_to_time_fields (some time) true ≡ success (fields_at time k index rest))
  unfolding xt_epoch_to_time_fields
  convert =
      let (k, year_is, k_lt, days_is, day_lt) = find_year_lem elapsed (omega arith) in
      let leap = leap_year (1601 + k) in
      let whole : month_start (days_in_month leap) 12 ≡ 365 + leap_day (1601 + k) = ground arith in
      let f =
        find_month-Found (days_in_month leap) 1 (find_year elapsed).1
          (omega (arith, whole, day_lt)) in
      let short : leb (2 ^ 63) time ≡ false = ground arith in
      let year : (find_year elapsed).0 % 2 ^ 16 ≡ 1601 + k = omega (arith, year_is, k_lt) in
      let day : (f.rest + 1) % 2 ^ 16 ≡ suc f.rest =
        omega (arith, f.rest_lt, month_most leap f.index) in
      let of_day = time / 10000000 % 86400 in
      let hour : of_day / 3600 % 2 ^ 16 ≡ of_day / 3600 = omega arith in
      let minute : of_day % 3600 / 60 % 2 ^ 16 ≡ of_day % 3600 / 60 = omega arith in
      let second : of_day % 60 % 2 ^ 16 ≡ of_day % 60 = omega arith in
      let milliseconds : time % 10000000 / 10000 % 2 ^ 16 ≡ time % 10000000 / 10000 = omega arith in
      let weekday : (elapsed + 1) % 7 % 2 ^ 16 ≡ (elapsed + 1) % 7 = omega arith in
      (
        k,
        f.index,
        f.rest,
        record {
          days_is = omega (arith, days_is, f.days_is);
          k_lt = k_lt;
          index_lt = f.index_lt;
          rest_lt = f.rest_lt;
        },
        let plus : 1 + f.index ≡ suc f.index = omega arith in
            rw (short, year, f.result_is, plus, day, hour, minute, second, milliseconds, weekday)
              refl,
      )

  -- Every time that is not negative is converted: no month is looked up past the end of the table.
  pub xt_epoch_to_time_fields-success :
      (t : TimeFields) × (xt_epoch_to_time_fields (some time) true ≡ success t)
  xt_epoch_to_time_fields-success =
      let (k, index, rest, date, same) = convert in (fields_at time k index rest, same)

outside-none : (low high v : ℕ) → low ≤ v → v ≤ high → high < 2 ^ 15 → outside low high v ≡ false
outside-none low high v h k j = ground arith

-- A date with a year up to 30827 is taken back.
module _ (time k index rest : ℕ) (date : Date (time / 10000000 / 86400) k index rest)
    (year : k < 29227) where
  abbrev t : TimeFields
  t = fields_at time k index rest

  refused-fields_at : refused 1601 t ≡ false
  unfolding refused
  refused-fields_at =
      let place : suc index - 1 ≡ index = omega arith in
      let most = month_most (leap_year (1601 + k)) index in
      rw
        (
          outside-none 0 23 t.hour (omega arith) (omega arith) (omega arith),
          outside-none 0 59 t.minute (omega arith) (omega arith) (omega arith),
          outside-none 0 59 t.second (omega arith) (omega arith) (omega arith),
          outside-none 1601 30827 t.year (omega arith) (omega arith) (omega arith),
          outside-none 1 12 t.month (omega arith) (omega (arith, date.index_lt)) (omega arith),
          place,
          outside-none 1 (get_or (days_in_month (leap_year (1601 + k))) index 0) (suc rest)
              (omega arith) date.rest_lt (omega (arith, most)),
        )
        refl

  seconds-fields_at : total_seconds 584725 t ≡ time / 10000000
  seconds-fields_at =
      let days : day_number t.year t.month t.day ≡ 584725 + time / 10000000 / 86400 =
        omega (arith, day_number_lem k index rest (omega arith) date.index_lt, date.days_is) in
      omega (arith, days)

  back : time_fields_to_xt_epoch t ≡ success (time - time % 10000)
  unfolding time_fields_to_xt_epoch
  back =
      rw
        (
          refused-fields_at,
          outside-none 0 999 t.milliseconds (omega arith) (omega arith) (omega arith),
        )
        (ap success (omega (arith, seconds-fields_at)))

-- A time before 1 January 30828 is converted to fields that are converted back to the same time,
-- without the part of it below a millisecond.
pub time_fields_to_xt_epoch-xt_epoch_to_time_fields :
    (time : ℕ)
    → time < 10674942 * 86400 * 10000000
    → (t : TimeFields) × (xt_epoch_to_time_fields (some time) true ≡ success t)
      × (time_fields_to_xt_epoch t ≡ success (time - time % 10000))
time_fields_to_xt_epoch-xt_epoch_to_time_fields time h =
    let (k, index, rest, date, same) = convert time (omega arith) in
    let year : k < 29227 = omega (arith, date.days_is) in
    (fields_at time k index rest, same, back time k index rest date year)
