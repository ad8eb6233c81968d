-- ===== src/Rtl/Time.antt =====
-- xtoskrnl/rtl/time.cc and the table of xtoskrnl/rtl/data.cc: time fields and the two epochs. A
-- field is a SHORT, held as its 16 bits.
pub mod Calendar
pub mod Months
pub mod Epoch
pub mod Dates
pub mod Accepted
mod Examples
use exectos.Base.{
  ℕ, zero, suc, ◌+◌, ◌-◌, ◌*◌, ◌/◌, ◌%◌, ◌^◌, Bool, true, false, not, ◌&&◌, ◌||◌, Option, none,
  some, List, [], ◌∷◌, ◌==◌, ltb, leb, if◌then◌else◌, get_or,
}
use exectos.Word.{u16, u32, u64}

pub record TimeFields : Type 0 where
  pub year : ℕ
  pub month : ℕ
  pub day : ℕ
  pub hour : ℕ
  pub minute : ℕ
  pub second : ℕ
  pub milliseconds : ℕ
  pub weekday : ℕ

-- The status that is returned, with what is stored. `past_table` is a read past the end of
-- DaysInMonth.
pub data Status (A : Type 0) : Type 0 where
  success : A → Status A
  invalid_parameter : Status A
  past_table : Status A

-- A SHORT is negative, and its absolute value.
abbrev pub negative : ℕ → Bool
negative v = leb (2 ^ 15) v

abbrev pub magnitude : ℕ → ℕ
magnitude v = if negative v then 2 ^ 16 - v else v

-- Outside the bounds.
abbrev pub outside : ℕ → ℕ → ℕ → Bool
outside low high v = (negative v || ltb v low) || ltb high v

-- The remainder of a negative year is 0 where that of its absolute value is.
unfoldable pub leap_year : ℕ → Bool
leap_year year = let y = magnitude year in (y % 4 == 0 && not (y % 100 == 0)) || y % 400 == 0

abbrev pub days_in_month : Bool → List ℕ
days_in_month leap =
    31 ∷ (if leap then 29 else 28) ∷ 31 ∷ 30 ∷ 31 ∷ 30 ∷ 31 ∷ 31 ∷ 30 ∷ 31 ∷ 30 ∷ 31 ∷ []

-- The fields that both conversions to an epoch refuse, below the first year they take.
unfoldable pub refused : ℕ → TimeFields → Bool
refused first_year t =
    outside 0 23 t.hour
    || (outside 0 59 t.minute
        || (outside 0 59 t.second
            || (outside first_year 30827 t.year
                || (outside 1 12 t.month
                    || outside 1 (get_or (days_in_month (leap_year t.year)) (t.month - 1) 0)
                        t.day))))

-- The days up to a date, counted from the year 0, with January and February put at the end of
-- the year before.
unfoldable pub day_number : ℕ → ℕ → ℕ → ℕ
day_number year month day =
    let y = if leb month 2 then year - 1 else year in
    let m = if leb month 2 then month + 10 else month - 2 in
    y / 4 - y / 100 + y / 400 + 367 * m / 12 + day + y * 365

-- The seconds of a day number, counted from the day `epoch`.
abbrev pub total_seconds : ℕ → TimeFields → ℕ
total_seconds epoch t =
    (day_number t.year t.month t.day - epoch) * 86400 + t.hour * 3600 + t.minute * 60 + t.second

unfoldable pub time_fields_to_xt_epoch : TimeFields → Status ℕ
time_fields_to_xt_epoch t =
    if refused 1601 t || outside 0 999 t.milliseconds
    then invalid_parameter
    else success (total_seconds 584725 t * 10000000 + t.milliseconds * 10000)

-- The loop that finds the month: the months from `month` on, and the days that are left.
unfoldable pub find_month : List ℕ → ℕ → ℕ → Option (ℕ × ℕ)
find_month [] month days = none
find_month (length ∷ rest) month days =
    let later = find_month rest (suc month) (days - length) in
    if leb length days then later else some (month, days)

-- The year of a day counted from 1601, and the day within the year.
unfoldable pub find_year : ℕ → ℕ × ℕ
find_year elapsed =
    let days = u32 elapsed in
    let periods_400 = days / 146097 in
    let days_400 = days % 146097 in
    let periods_100 = if days_400 / 36524 == 4 then 3 else days_400 / 36524 in
    let days_100 = days_400 - periods_100 * 36524 in
    let periods_4 = days_100 / 1461 in
    let days_4 = days_100 % 1461 in
    let periods_1 = if days_4 / 365 == 4 then 3 else days_4 / 365 in
    (
      1601 + periods_400 * 400 + periods_100 * 100 + periods_4 * 4 + periods_1,
      days_4 - periods_1 * 365,
    )

-- The month and the day are stored, where the table has them.
abbrev pub store_date : TimeFields → Option (ℕ × ℕ) → Status TimeFields
store_date t none = past_table
store_date t (some (month, days)) = success (record t { month = month; day = u16 (days + 1) })

-- The time is the 64 bits of a LARGE_INTEGER; `none` and `false` are null pointers.
unfoldable pub xt_epoch_to_time_fields : Option ℕ → Bool → Status TimeFields
xt_epoch_to_time_fields none fields = invalid_parameter
xt_epoch_to_time_fields (some time) false = invalid_parameter
xt_epoch_to_time_fields (some time) true =
    let seconds = time / 10000000 in
    let elapsed = seconds / 86400 in
    let of_day = seconds % 86400 in
    let (year, days) = find_year elapsed in
    if leb (2 ^ 63) time
    then invalid_parameter
    else store_date
        (record {
          year = u16 year;
          month = 0;
          day = 0;
          hour = u16 (of_day / 3600);
          minute = u16 (of_day % 3600 / 60);
          second = u16 (of_day % 60);
          milliseconds = u16 (time % 10000000 / 10000);
          weekday = u16 ((elapsed + 1) % 7);
        })
        (find_month (days_in_month (leap_year (u16 year))) 1 days)
