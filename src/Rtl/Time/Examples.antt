-- ===== src/Rtl/Time/Examples.antt =====
-- The time theorems at a time of the year 2022, and some runs.
use exectos.Base.{◌+◌, ◌-◌, ◌%◌, ◌≡◌, refl, true, none, some, arith}
use exectos.Rtl.Time.{
  TimeFields, success, invalid_parameter, leap_year, day_number, refused, find_month, find_year,
  time_fields_to_xt_epoch, xt_epoch_to_time_fields,
}
use exectos.Rtl.Time.Accepted.{day_of, xt_epoch_to_time_fields-time_fields_to_xt_epoch}
use exectos.Rtl.Time.Epoch.{
  xt_epoch_to_time_fields-success, time_fields_to_xt_epoch-xt_epoch_to_time_fields,
}

xt_epoch_to_time_fields-success_example :
    (t : TimeFields) × (xt_epoch_to_time_fields (some 133_000_000_123_456_789) true ≡ success t)
xt_epoch_to_time_fields-success_example =
    xt_epoch_to_time_fields-success 133_000_000_123_456_789 (omega arith)

time_fields_to_xt_epoch-xt_epoch_to_time_fields_example :
    (t : TimeFields) × (xt_epoch_to_time_fields (some 133_000_000_123_456_789) true ≡ success t)
    × (time_fields_to_xt_epoch t
        ≡ success (133_000_000_123_456_789 - 133_000_000_123_456_789 % 10000))
time_fields_to_xt_epoch-xt_epoch_to_time_fields_example =
    time_fields_to_xt_epoch-xt_epoch_to_time_fields 133_000_000_123_456_789 (omega arith)

abbrev last_day : TimeFields
last_day = record {
  year = 2000;
  month = 12;
  day = 31;
  hour = 23;
  minute = 59;
  second = 58;
  milliseconds = 7;
  weekday = 0;
}

last_day_epoch : time_fields_to_xt_epoch last_day ≡ success 126227807980070000
unfolding time_fields_to_xt_epoch refused leap_year day_number
last_day_epoch = refl

xt_epoch_to_time_fields-time_fields_to_xt_epoch_example :
    xt_epoch_to_time_fields (some 126227807980070000) true
    ≡ success (record last_day { weekday = (day_of last_day + 1) % 7 })
xt_epoch_to_time_fields-time_fields_to_xt_epoch_example =
    xt_epoch_to_time_fields-time_fields_to_xt_epoch last_day 126227807980070000 last_day_epoch

last_day_fields :
    xt_epoch_to_time_fields (some 126227807980070000) true
    ≡ success (record last_day { weekday = 0 })
unfolding xt_epoch_to_time_fields find_month find_year leap_year
last_day_fields = refl

no_such_day : time_fields_to_xt_epoch (record last_day { month = 2; day = 30 }) ≡ invalid_parameter
unfolding time_fields_to_xt_epoch refused leap_year day_number
no_such_day = refl

null_time : xt_epoch_to_time_fields none true ≡ invalid_parameter
unfolding xt_epoch_to_time_fields
null_time = refl
