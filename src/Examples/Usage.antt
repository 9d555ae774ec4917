-- ===== src/Examples/Usage.antt =====
-- Days, windows and aggregates, at concrete inputs.
use rustspell_server.Base.{
  ℕ, ◌≡◌, ◌↔◌, refl, true, none, some, List, [], ◌∷◌, All, sum_by, string_eq, arith, leb, ltb, ◌+◌,
  ◌-◌, ◌*◌, ◌/◌,
}
use rustspell_server.Base.Floats.{Floats}
use rustspell_server.Base.Int.{ℤ, pos, ◌+ℤ◌, ◌-ℤ◌, leb_ℤ, times, quot, rem, pos_part}
use rustspell_server.Base.Text.{char_count, digits_value, parse_uint}
use rustspell_server.Error.{ok, err, AppError}
use rustspell_server.Usage.Rollup.{text_leb}
use rustspell_server.Usage.Days.{
  format_day, parse_day, civil_from_days, format_civil, padded_from, digit, nth_char, era_of,
  year_of_era, day_of_year, shifted_month, day_of_month, month_of, is_leap, days_in_month,
  days_from_shifted, month_from_march, days_from_civil, take_chars, drop_chars, parse_i64,
}
use rustspell_server.Usage.Days.RoundTrip.{IsFourDigit, parse_day-format_day}
use rustspell_server.Usage.Days.Order.{text_leb-format_day}
use rustspell_server.Usage.Windows.{
  resolve_window, supplied_window, checked_window, UsageQuery, Window, window,
}
use rustspell_server.Usage.Windows.Ranges.{both, IsWindowOf, resolve_window_iff}
use rustspell_server.Usage.Rows.{UsageDailyRow}
use rustspell_server.Usage.Aggregate.{aggregate_daily, aggregate_errors, aggregate_languages}
use rustspell_server.Usage.Aggregate.Daily.{IsDayOf, aggregate_daily-IsDayOf}
use rustspell_server.Usage.Aggregate.Totals.{aggregate-Agrees}

-- 2026-07-29 and 2026-08-12
abbrev first_day : ℤ
first_day = pos 20663

abbrev last_day : ℤ
last_day = pos 20677

first_day-IsFourDigit : IsFourDigit first_day
unfolding ◌+ℤ◌
first_day-IsFourDigit = (omega arith, omega arith)

last_day-IsFourDigit : IsFourDigit last_day
unfolding ◌+ℤ◌
last_day-IsFourDigit = (omega arith, omega arith)

format_runs : format_day first_day ≡ "2026-07-29"
unfolding ◌+ℤ◌ ◌-ℤ◌ times quot format_day civil_from_days format_civil padded_from digit nth_char
    era_of year_of_era day_of_year shifted_month day_of_month month_of
format_runs = refl

-- 29 February of a leap year, a day that no year has, and a sign that the parser of `i64` lets through.
parse_runs :
    (parse_day "2024-02-29" ≡ some (pos 19782))
    × (parse_day "2023-02-29" ≡ none)
    × (parse_day "2026-+7-01" ≡ some (pos 20635))
unfolding ◌+ℤ◌ ◌-ℤ◌ times quot rem parse_day char_count take_chars drop_chars parse_i64 parse_uint
    digits_value is_leap days_in_month days_from_shifted month_from_march days_from_civil era_of
parse_runs = (refl, refl, refl)

parse_day-format_day_example : parse_day (format_day first_day) ≡ some first_day
parse_day-format_day_example = parse_day-format_day first_day first_day-IsFourDigit

text_leb-format_day_example :
    text_leb (format_day first_day) (format_day last_day) ≡ leb_ℤ first_day last_day
text_leb-format_day_example =
    text_leb-format_day first_day last_day first_day-IsFourDigit last_day-IsFourDigit

ends : (parse_day "2026-07-29" ≡ some first_day) × (parse_day "2026-08-12" ≡ some last_day)
unfolding ◌+ℤ◌ ◌-ℤ◌ times quot rem parse_day char_count take_chars drop_chars parse_i64 parse_uint
    digits_value is_leap days_in_month days_from_shifted month_from_march days_from_civil era_of
ends = (refl, refl)

-- 2026-08-15 at noon
abbrev noon : ℕ
noon = 1786795200

abbrev the_window : Window
the_window = window first_day last_day true

accepted : resolve_window noon (both "2026-07-29" "2026-08-12") none ≡ ok the_window
unfolding resolve_window supplied_window checked_window ◌-ℤ◌
accepted = rw (ends.0, ends.1) refl

resolve_window_iff_example :
    (resolve_window noon (both "2026-07-29" "2026-08-12") none ≡ ok the_window)
    ↔ IsWindowOf "2026-07-29" "2026-08-12" the_window
resolve_window_iff_example = resolve_window_iff noon "2026-07-29" "2026-08-12" none the_window

abbrev half_open : UsageQuery
half_open = record { start = some "2026-07-29"; end = none }

abbrev together : AppError
together = AppError.invalid_date_range "start and end must be supplied together"

refused : resolve_window noon half_open none ≡ err together
unfolding resolve_window
refused = refl

abbrev some_row : UsageDailyRow
some_row = record {
  day = "2026-07-29";
  language = "en_US";
  status = 200;
  error_slug = "";
  request_count = 3;
  latency_sum_us = 9000;
}

abbrev some_rows : List UsageDailyRow
some_rows =
    some_row
    ∷ record some_row { status = 400; error_slug = "validation-error"; request_count = 1 }
    ∷ []

aggregate_daily-IsDayOf_example : All (IsDayOf some_rows) (aggregate_daily some_rows)
aggregate_daily-IsDayOf_example = aggregate_daily-IsDayOf some_rows

-- A stand-in for the floats: whole numbers.
abbrev pub whole_floats : Floats
whole_floats = record {
  Float = ℕ;
  from_int = pos_part;
  add = ◌+◌;
  sub = ◌-◌;
  mul = ◌*◌;
  div = ◌/◌;
  less = ltb;
  less_eq = leb;
  round = λ x. x;
  to_u64 = λ x. x;
}

aggregate-Agrees_example :
    (sum_by (λ t. t.count) (aggregate_errors some_rows true)
      ≡ sum_by (λ d. d.errors) (aggregate_daily some_rows))
    × (sum_by (λ d. d.count) (aggregate_languages whole_floats some_rows true)
        ≡ sum_by (λ d. d.requests) (aggregate_daily some_rows))
aggregate-Agrees_example = aggregate-Agrees whole_floats some_rows true
