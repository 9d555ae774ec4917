-- ===== src/Usage/Aggregate/Daily.antt =====
-- src/usage.rs: each day of an answer, and their order.
use rustspell_server.Base.{
  ◌+◌, ◌/◌, String, ◌≡◌, refl, ap, some, List, [], ◌∷◌, map, arith, ltb, if◌then◌else◌, Eq, ◌==◌,
  retain, sum_by, string_eq, All,
}
use rustspell_server.Base.Dict.{Dict, lookup}
use rustspell_server.Base.Dict.Distinct.{IsDistinct, lookup-Absent}
use rustspell_server.Base.Dict.Group.{
  group_into, fold_key, lookup-group_into, group_into-IsDistinct,
}
use rustspell_server.Base.Sort.{All-sort_by, IsOrder, IsSorted, sort_by-IsSorted}
use rustspell_server.Usage.Rollup.Query.{text_leb_trans, text_leb_total}
use rustspell_server.Usage.Rows.{UsageDailyRow}
use rustspell_server.Usage.Aggregate.{
  DailyUsageRow, DayTotals, no_totals, is_error, add_row, day_of, daily_usage_row, by_date,
  aggregate_daily,
}

abbrev pub rows_of : String → List UsageDailyRow → List UsageDailyRow
rows_of day rows = retain (λ r. r.day == day) rows

-- A day's counts are those of its rows, and its average is over all their requests.
pub record IsDayOf (rows : List UsageDailyRow) (d : DailyUsageRow) : Type 0 where
  pub requests_are : d.requests ≡ sum_by (λ r. r.request_count) (rows_of d.date rows)
  pub errors_are : d.errors ≡ sum_by (λ r. r.request_count) (retain is_error (rows_of d.date rows))
  pub average_is : d.average_latency_ms ≡ (
      if ltb 0 d.requests
      then sum_by (λ r. r.latency_sum_us) (rows_of d.date rows) / d.requests / 1000
      else 0)

-- A fold over the rows of a day, by sums.
fold_key-sums :
    (day : String) (rows : List UsageDailyRow) (t : DayTotals)
    → ((fold_key day_of no_totals add_row day rows t).requests
        ≡ t.requests + sum_by (λ r. r.request_count) (rows_of day rows))
      × ((fold_key day_of no_totals add_row day rows t).latency_sum_us
          ≡ t.latency_sum_us + sum_by (λ r. r.latency_sum_us) (rows_of day rows))
      × ((fold_key day_of no_totals add_row day rows t).errors
          ≡ t.errors + sum_by (λ r. r.request_count) (retain is_error (rows_of day rows)))
unfolding fold_key
fold_key-sums day [] t = (omega arith, omega arith, omega arith)
fold_key-sums day (r ∷ rows) t =
    ground (arith, fold_key-sums day rows t, fold_key-sums day rows (add_row r t))

-- Every entry of a dictionary with one entry for each key is what a lookup gives.
All-entries {ℓ κ μ ν} :
    {K : Type ℓ} ⦃e : Eq K⦄ {V : Type κ} {B : Type μ} (h : K × V → B) (P : B → Type ν)
    (m : Dict K V)
    → IsDistinct m
    → ((k : K) (v : V) → lookup k m ≡ some v → P (h (k, v)))
    → All P (map h m)
unfolding lookup
All-entries h P [] d f = tt
All-entries ⦃e = e⦄ h P ((k, v) ∷ m) d f = (
  f k v (ground (arith, e.test_iff k k)),
  All-entries h P m d.1 (λ j w q. f j w (ground (arith, e.test_iff k j, lookup-Absent k m))),
)

day_totals :
    (rows : List UsageDailyRow) (day : String) (t : DayTotals)
    → lookup day (group_into day_of no_totals add_row rows []) ≡ some t
    → IsDayOf rows (daily_usage_row (day, t))
unfolding lookup
day_totals rows day t h =
    let total = lookup-group_into day_of no_totals add_row day rows [] in
    let same : t ≡ fold_key day_of no_totals add_row day rows no_totals = (rw h at total) in
    let sums = fold_key-sums day rows no_totals in
    let latency : t.latency_sum_us ≡ sum_by (λ r. r.latency_sum_us) (rows_of day rows) =
      omega (arith, sums.1, ap (λ x. x.latency_sum_us) same) in
    record {
      requests_are = omega (arith, sums.0, ap (λ x. x.requests) same);
      errors_are = omega (arith, sums.2, ap (λ x. x.errors) same);
      average_is = rw latency refl;
    }

-- Each day of an answer has the sums of its own rows: their requests, those with a status of 400 or
-- more as errors, and the average over them in whole milliseconds.
pub aggregate_daily-IsDayOf :
    (rows : List UsageDailyRow) → All (IsDayOf rows) (aggregate_daily rows)
unfolding aggregate_daily
aggregate_daily-IsDayOf rows = All-sort_by by_date _ _ (
    All-entries daily_usage_row (IsDayOf rows) _
      (group_into-IsDistinct day_of no_totals add_row rows [] tt) (day_totals rows))

text_leb-IsOrder : IsOrder by_date
text_leb-IsOrder = record {
  total = λ a b. text_leb_total a.date b.date;
  trans = λ a b c. text_leb_trans a.date b.date c.date;
}

-- The days of an answer are in order.
pub aggregate_daily-IsSorted : (rows : List UsageDailyRow) → IsSorted by_date (aggregate_daily rows)
unfolding aggregate_daily
aggregate_daily-IsSorted rows = sort_by-IsSorted by_date text_leb-IsOrder _
