-- ===== src/Usage/Windows.antt =====
-- src/usage.rs: the range of days that a usage query asks for. `now` is the clock in seconds.
pub mod Ranges
use rustspell_server.Base.{
  ℕ, ◌+◌, String, ◌<>◌, ◌≡◌, Bool, true, false, not, Option, none, some, if◌then◌else◌,
}
use rustspell_server.Base.Int.{ℤ, pos, ◌+ℤ◌, ◌-ℤ◌, quot, as_i64, leb_ℤ}
use rustspell_server.Error.{AppError, invalid_date_range, Result, ok, err, ◌>>=◌}
use rustspell_server.Usage.Days.{parse_day, format_day}

abbrev pub retention_days : ℕ
retention_days = 90

abbrev pub default_window_days : ℕ
default_window_days = 30

abbrev pub seconds_per_day : ℕ
seconds_per_day = 86400

pub record UsageQuery : Type 0 where
  pub start : Option String
  pub end : Option String

-- Both ends belong to the range.
pub record Window : Type 0 where
  pub start : String
  pub end : String
  pub dated : Bool

-- The day of a `u64` of seconds.
unfoldable pub day_of_seconds : ℕ → ℤ
day_of_seconds seconds = quot (as_i64 seconds) seconds_per_day

unfoldable pub epoch_day_now : ℕ → ℤ
epoch_day_now now = day_of_seconds now

abbrev pub window : ℤ → ℤ → Bool → Window
window start_day end_day dated = record {
  start = format_day start_day;
  end = format_day end_day;
  dated = dated;
}

abbrev pub ok_or : String → Option ℤ → Result ℤ
ok_or message none = err (invalid_date_range message)
ok_or message (some day) = ok day

unfoldable pub checked_window : ℤ → ℤ → Result Window
checked_window start_day end_day =
    if not (leb_ℤ start_day end_day)
    then err (invalid_date_range "start must not be after end")
    else if leb_ℤ (pos retention_days) (end_day -ℤ start_day)
    then err (invalid_date_range "range must span fewer than 90 days of retained data")
    else ok (window start_day end_day true)

unfoldable pub supplied_window : String → String → Result Window
supplied_window start end = do
  start_day ← ok_or ("invalid start date: " <> start) (parse_day start)
  end_day ← ok_or ("invalid end date: " <> end) (parse_day end)
  checked_window start_day end_day

abbrev pub default_window : ℤ → Option (ℕ × ℕ) → Window
default_window today (some (start_ts, end_ts)) =
    window (day_of_seconds start_ts) (day_of_seconds end_ts) false
default_window today none = window (today -ℤ pos default_window_days +ℤ pos 1) today false

abbrev pub resolve : ℤ → Option String → Option String → Option (ℕ × ℕ) → Result Window
resolve today (some start) (some end) period = supplied_window start end
resolve today (some start) none period =
    err (invalid_date_range "start and end must be supplied together")
resolve today none (some end) period =
    err (invalid_date_range "start and end must be supplied together")
resolve today none none period = ok (default_window today period)

unfoldable pub resolve_window : ℕ → UsageQuery → Option (ℕ × ℕ) → Result Window
resolve_window now query period = resolve (epoch_day_now now) query.start query.end period

unfoldable pub retention_cutoff_day : ℕ → String
retention_cutoff_day now = format_day (epoch_day_now now -ℤ pos retention_days)
