-- ===== src/Rtl/Time/Accepted.antt =====
-- Fields that are taken, their time, and the fields of that time.
use exectos.Base.{
  subst, ℕ, suc, ◌+◌, ◌-◌, ◌*◌, ◌/◌, ◌%◌, ◌^◌, ◌≤◌, ◌<◌, ◌≡◌, refl, sym, ap, ◌∙◌, Bool, true, false,
  ◌||◌, some, if◌then◌else◌, Bool-cases, inl, inr, arith, get_or,
}
use exectos.Rtl.Time.{
  TimeFields, success, invalid_parameter, leap_year, days_in_month, day_number, refused, outside,
  total_seconds, time_fields_to_xt_epoch, xt_epoch_to_time_fields,
}
use exectos.Rtl.Time.Calendar.{year_start}
use exectos.Rtl.Time.Months.{month_start, day_number_lem}
use exectos.Rtl.Time.Epoch.{Date, fields_at, convert}
use exectos.Rtl.Time.Dates.{Date-unique, month_start-length}

outside-false : (low high v : ℕ) → outside low high v ≡ false → (low ≤ v) × (v ≤ high)
outside-false low high v h = (ground arith, ground arith)

or-false : (a b : Bool) → (a || b) ≡ false → (a ≡ false) × (b ≡ false)
or-false a b h = (ground arith, ground arith)

-- The bounds of fields that are taken.
record Accepted (t : TimeFields) : Type 0 where
  hour_le : t.hour ≤ 23
  minute_le : t.minute ≤ 59
  second_le : t.second ≤ 59
  milliseconds_le : t.milliseconds ≤ 999
  year_ge : 1601 ≤ t.year
  year_le : t.year ≤ 30827
  month_ge : 1 ≤ t.month
  month_le : t.month ≤ 12
  day_ge : 1 ≤ t.day
  day_le : t.day ≤ get_or (days_in_month (leap_year t.year)) (t.month - 1) 0

not_refused-Accepted :
    (t : TimeFields) → refused 1601 t ≡ false → outside 0 999 t.milliseconds ≡ false → Accepted t
unfolding refused
not_refused-Accepted t h m =
    let (hour, h1) = or-false _ _ h in
    let (minute, h2) = or-false _ _ h1 in
    let (second, h3) = or-false _ _ h2 in
    let (year, h4) = or-false _ _ h3 in
    let (month, day) = or-false _ _ h4 in
    let table = days_in_month (leap_year t.year) in
    record {
      hour_le = (outside-false 0 23 t.hour hour).1;
      minute_le = (outside-false 0 59 t.minute minute).1;
      second_le = (outside-false 0 59 t.second second).1;
      milliseconds_le = (outside-false 0 999 t.milliseconds m).1;
      year_ge = (outside-false 1601 30827 t.year year).0;
      year_le = (outside-false 1601 30827 t.year year).1;
      month_ge = (outside-false 1 12 t.month month).0;
      month_le = (outside-false 1 12 t.month month).1;
      day_ge = (outside-false 1 (get_or table (t.month - 1) 0) t.day day).0;
      day_le = (outside-false 1 (get_or table (t.month - 1) 0) t.day day).1;
    }

abbrev fields_of : (year month day hour minute second milliseconds weekday : ℕ) → TimeFields
fields_of y mo d h mi s ms w = record {
  year = y;
  month = mo;
  day = d;
  hour = h;
  minute = mi;
  second = s;
  milliseconds = ms;
  weekday = w;
}

fields_of-cong :
    {y y' mo mo' d d' h h' mi mi' s s' ms ms' w w' : ℕ}
    → y ≡ y'
    → mo ≡ mo'
    → d ≡ d'
    → h ≡ h'
    → mi ≡ mi'
    → s ≡ s'
    → ms ≡ ms'
    → w ≡ w'
    → fields_of y mo d h mi s ms w ≡ fields_of y' mo' d' h' mi' s' ms' w'
fields_of-cong a b c d e f g h = rw (a, b, c, d, e, f, g, h) refl

-- The time of fields that are taken.
abbrev epoch : TimeFields → ℕ
epoch t = total_seconds 584725 t * 10000000 + t.milliseconds * 10000

abbrev with_weekday : TimeFields → ℕ → TimeFields
with_weekday t w = record t { weekday = w }

-- The day counted from 1601 that a date falls on.
abbrev pub day_of : TimeFields → ℕ
day_of t = day_number t.year t.month t.day - 584725

module _ (t : TimeFields) (k index rest : ℕ) (a : Accepted t) (year_is : t.year ≡ 1601 + k)
    (month_is : t.month ≡ suc index) (day_is : t.day ≡ suc rest) where
  days_is :
      day_number t.year t.month t.day
      ≡ 584725 + year_start k + month_start (days_in_month (leap_year (1601 + k))) index + rest
  days_is =
      rw (year_is, month_is, day_is)
        (day_number_lem k index rest (omega (arith, a.year_le)) (omega (arith, a.month_le)))

  seconds_is : epoch t / 10000000 ≡ total_seconds 584725 t
  seconds_is = omega (arith, a.milliseconds_le)

  elapsed_is : epoch t / 10000000 / 86400 ≡ day_of t
  elapsed_is = omega (arith, seconds_is, a.hour_le, a.minute_le, a.second_le)

  epoch-Date : Date (epoch t / 10000000 / 86400) k index rest
  epoch-Date =
      let place : t.month - 1 ≡ index = omega arith in
      let table = days_in_month (leap_year (1601 + k)) in
      let inside : t.day ≤ get_or table index 0 =
        subst (λ y. t.day ≤ get_or (days_in_month (leap_year y)) index 0) year_is
          (subst (λ j. t.day ≤ get_or (days_in_month (leap_year t.year)) j 0) place a.day_le) in
      record {
        days_is = omega (arith, elapsed_is, days_is);
        k_lt = omega (arith, a.year_le);
        index_lt = omega (arith, a.month_le);
        rest_lt = omega (arith, inside);
      }

  fields_at-epoch : fields_at (epoch t) k index rest ≡ with_weekday t ((day_of t + 1) % 7)
  fields_at-epoch =
      fields_of-cong (sym year_is) (sym month_is) (sym day_is)
        (omega (arith, seconds_is, a.hour_le, a.minute_le, a.second_le))
        (omega (arith, seconds_is, a.hour_le, a.minute_le, a.second_le))
        (omega (arith, seconds_is, a.hour_le, a.minute_le, a.second_le))
        (omega (arith, a.milliseconds_le)) (omega (arith, elapsed_is))

  epoch-lt : epoch t < 2 ^ 63
  epoch-lt =
      let most = month_start-length (leap_year (1601 + k)) index (omega (arith, a.month_le)) in
      let one : (if leap_year (1601 + k) then 1 else 0) ≤ 1 = ground arith in
      omega (arith, elapsed_is, days_is, epoch-Date.rest_lt, most, one, a.year_le)

  converted :
      xt_epoch_to_time_fields (some (epoch t)) true ≡ success (with_weekday t ((day_of t + 1) % 7))
  converted =
      let (k', index', rest', date, same) = convert (epoch t) epoch-lt in
      let (e, f, g) = Date-unique (epoch t / 10000000 / 86400) date epoch-Date in
      same ∙ (rw (e, f, g) refl) ∙ ap success fields_at-epoch

invalid_parameter-ne_success : (a : ℕ) → invalid_parameter ≡ success a → ⊥
invalid_parameter-ne_success a h = ground (arith, h)

success-inj : (a b : ℕ) → success a ≡ success b → a ≡ b
success-inj a b e = ap (λ s. elim s [ success v ↦ v | _ ↦ 0 ]) e

-- Fields that are converted to a time are what that time is converted to, but for the weekday,
-- which is that of the date.
pub xt_epoch_to_time_fields-time_fields_to_xt_epoch :
    (t : TimeFields) (time : ℕ)
    → time_fields_to_xt_epoch t ≡ success time
    → xt_epoch_to_time_fields (some time) true ≡ success (record t { weekday = (day_of t + 1) % 7 })
unfolding time_fields_to_xt_epoch
xt_epoch_to_time_fields-time_fields_to_xt_epoch t time h =
    elim (Bool-cases (refused 1601 t || outside 0 999 t.milliseconds)) [
      | inl bad ↦ absurd (invalid_parameter-ne_success time (rw bad at h))
      | inr good ↦
          let (fields, milliseconds) = or-false _ _ good in
          let a = not_refused-Accepted t fields milliseconds in
          let same : epoch t ≡ time = success-inj (epoch t) time (rw good at h) in
          ap (λ x. xt_epoch_to_time_fields (some x) true) (sym same)
          ∙ converted t (t.year - 1601) (t.month - 1) (t.day - 1) a (omega (arith, a.year_ge))
              (omega (arith, a.month_ge)) (omega (arith, a.day_ge))
    ]
