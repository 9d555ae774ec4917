-- ===== src/Usage/Aggregate.antt =====
-- src/usage.rs: what the usage handlers make of the rows.
pub mod Totals
pub mod Daily
pub mod Percentile
use rustspell_server.Base.{
  ℕ, ◌+◌, ◌*◌, ◌/◌, ◌%◌, ◌^◌, String, ◌≡◌, ◌↔◌, Bool, true, false, ◌&&◌, Option, none, some, List,
  [], ◌∷◌, map, arith, leb, ltb, if◌then◌else◌, Eq, ◌==◌, string_eq, option_eq, nat_eq, retain,
}
use rustspell_server.Base.Dict.{Dict, lookup}
use rustspell_server.Base.Dict.Group.{or_else, group_into}
use rustspell_server.Base.Floats.{Floats}
use rustspell_server.Base.Int.{pos}
use rustspell_server.Base.Sort.{sort_by}
use rustspell_server.Usage.Rollup.{text_leb}
use rustspell_server.Usage.Rows.{UsageDailyRow}

-- One day of the answer.
pub record DailyUsageRow : Type 0 where
  pub date : String
  pub requests : ℕ
  pub average_latency_ms : ℕ
  pub errors : ℕ

-- The tuple that the loop adds to.
pub record DayTotals : Type 0 where
  pub requests : ℕ
  pub latency_sum_us : ℕ
  pub errors : ℕ

abbrev pub no_totals : DayTotals
no_totals = record { requests = 0; latency_sum_us = 0; errors = 0 }

abbrev pub is_error : UsageDailyRow → Bool
is_error row = leb 400 row.status

abbrev pub add_row : UsageDailyRow → DayTotals → DayTotals
add_row row t = record {
  requests = t.requests + row.request_count;
  latency_sum_us = t.latency_sum_us + row.latency_sum_us;
  errors = if is_error row then t.errors + row.request_count else t.errors;
}

abbrev pub day_of : UsageDailyRow → String
day_of row = row.day

abbrev pub daily_usage_row : String × DayTotals → DailyUsageRow
daily_usage_row (day, t) = record {
  date = day;
  requests = t.requests;
  average_latency_ms = if ltb 0 t.requests then t.latency_sum_us / t.requests / 1000 else 0;
  errors = t.errors;
}

abbrev pub by_date : DailyUsageRow → DailyUsageRow → Bool
by_date a b = text_leb a.date b.date

unfoldable pub aggregate_daily : List UsageDailyRow → List DailyUsageRow
aggregate_daily rows =
    sort_by by_date (map daily_usage_row (group_into day_of no_totals add_row rows []))

-- `a.cmp(b).then(rest)`, as "not greater", of the two directions of a first order.
abbrev pub then_leb : Bool → Bool → Bool → Bool
then_leb first back rest = if first then (if back then rest else true) else false

-- The order of `Option<String>`.
abbrev pub date_leb : Option String → Option String → Bool
date_leb none b = true
date_leb (some a) none = false
date_leb (some a) (some b) = text_leb a b

-- `dated.then(|| …)`
abbrev pub date_if : Bool → String → Option String
date_if dated day = if dated then some day else none

pub record ErrorTrend : Type 0 where
  pub date : Option String
  pub status : ℕ
  pub error_code : String
  pub count : ℕ

pub record ErrorKey : Type 0 where
  pub date : Option String
  pub status : ℕ
  pub error_code : String

abbrev pub error_key_test : ErrorKey → ErrorKey → Bool
error_key_test a b = a.date == b.date && a.status == b.status && a.error_code == b.error_code

pub error_key_test_iff : (a b : ErrorKey) → (error_key_test a b ≡ true) ↔ (a ≡ b)
error_key_test_iff a b = ground (
  arith,
  (option_eq {A = String}).test_iff a.date b.date,
  string_eq.test_iff a.error_code b.error_code,
)

instance abbrev pub error_key_eq : Eq ErrorKey
error_key_eq = record { test = error_key_test; test_iff = error_key_test_iff }

abbrev pub error_key : Bool → UsageDailyRow → ErrorKey
error_key dated row = record {
  date = date_if dated row.day;
  status = row.status;
  error_code = row.error_slug;
}

abbrev pub add_count : UsageDailyRow → ℕ → ℕ
add_count row n = n + row.request_count

abbrev pub error_trend : ErrorKey × ℕ → ErrorTrend
error_trend (k, count) = record {
  date = k.date;
  status = k.status % 2 ^ 16;
  error_code = k.error_code;
  count = count;
}

abbrev pub error_leb : ErrorTrend → ErrorTrend → Bool
error_leb a b =
    then_leb (date_leb a.date b.date) (date_leb b.date a.date)
      (then_leb (leb b.count a.count) (leb a.count b.count) (text_leb a.error_code b.error_code))

unfoldable pub aggregate_errors : List UsageDailyRow → Bool → List ErrorTrend
aggregate_errors rows dated =
    sort_by error_leb
      (map error_trend (group_into (error_key dated) 0 add_count (retain is_error rows) []))

pub record LanguageKey : Type 0 where
  pub date : Option String
  pub language : String

abbrev pub language_key_test : LanguageKey → LanguageKey → Bool
language_key_test a b = a.date == b.date && a.language == b.language

pub language_key_test_iff : (a b : LanguageKey) → (language_key_test a b ≡ true) ↔ (a ≡ b)
language_key_test_iff a b = ground (
  arith,
  (option_eq {A = String}).test_iff a.date b.date,
  string_eq.test_iff a.language b.language,
)

instance abbrev pub language_key_eq : Eq LanguageKey
language_key_eq = record { test = language_key_test; test_iff = language_key_test_iff }

abbrev pub language_key : Bool → UsageDailyRow → LanguageKey
language_key dated row = record { date = date_if dated row.day; language = row.language }

abbrev pub date_key : Bool → UsageDailyRow → Option String
date_key dated row = date_if dated row.day

module _ (f : Floats) where
  pub record LanguageDistribution : Type 0 where
    pub date : Option String
    pub language : String
    pub count : ℕ
    pub percentage : f.Float

  -- In tenths of a percent.
  abbrev pub percentage_of : ℕ → ℕ → f.Float
  percentage_of count total =
      if ltb 0 total
      then f.div
          (f.round (
            f.mul (f.div (f.from_int (pos count)) (f.from_int (pos total)))
              (f.from_int (pos 1000))))
          (f.from_int (pos 10))
      else f.from_int (pos 0)

  abbrev pub language_distribution : Dict (Option String) ℕ → LanguageKey × ℕ → LanguageDistribution
  language_distribution totals (k, count) = record {
    date = k.date;
    language = k.language;
    count = count;
    percentage = percentage_of count (or_else 0 (lookup k.date totals));
  }

  abbrev pub language_leb : LanguageDistribution → LanguageDistribution → Bool
  language_leb a b =
      then_leb (date_leb a.date b.date) (date_leb b.date a.date)
        (then_leb (leb b.count a.count) (leb a.count b.count) (text_leb a.language b.language))

  -- The totals of each date come from the same rows as the counts.
  unfoldable pub aggregate_languages : List UsageDailyRow → Bool → List LanguageDistribution
  aggregate_languages rows dated =
      let totals = group_into (date_key dated) 0 add_count rows [] in
      sort_by language_leb
        (map (language_distribution totals) (group_into (language_key dated) 0 add_count rows []))
