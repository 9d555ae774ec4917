-- ===== src/Handlers/Usage.antt =====
-- src/handlers.rs: the routes of usage. They read the tenants of the store and the rollup's tables;
-- `reached` says whether the one statement reaches the database.
pub mod Own
use rustspell_server.Base.{ℕ, String, Bool, true, false, Option, none, some, List}
use rustspell_server.Base.Floats.{Floats}
use rustspell_server.Error.{AppError, internal, Result, ok, err, ◌>>=◌}
use rustspell_server.Store.Data.{Store, TenantInfo}
use rustspell_server.Store.Tenants.{get_tenant}
use rustspell_server.Auth.Request.{UsageScope}
use rustspell_server.Usage.Rollup.{UsageTables}
use rustspell_server.Usage.Rows.{
  UsageDailyRow, usage_daily_rows, UsageLatencyRow, query_usage_latency,
}
use rustspell_server.Usage.Windows.{UsageQuery, Window, resolve_window}
use rustspell_server.Usage.Aggregate.{
  DailyUsageRow, aggregate_daily, ErrorTrend, aggregate_errors, LanguageDistribution,
  aggregate_languages,
}
use rustspell_server.Usage.Aggregate.Percentile.{LatencyTrend, aggregate_latency}

-- `t.period_start.zip(t.period_end)`
abbrev pub zip_periods : Option ℕ → Option ℕ → Option (ℕ × ℕ)
zip_periods (some start) (some end) = some (start, end)
zip_periods _ _ = none

abbrev pub billing_period : Option TenantInfo → Option (ℕ × ℕ)
billing_period none = none
billing_period (some t) = zip_periods t.period_start t.period_end

abbrev pub scope_period : UsageScope → Store → Option (ℕ × ℕ)
scope_period UsageScope.platform s = none
scope_period (UsageScope.tenant id) s = billing_period (get_tenant id s)

unfoldable pub usage_window : ℕ → Store → UsageScope → UsageQuery → Result Window
usage_window now s scope query = resolve_window now query (scope_period scope s)

unfoldable pub scope_tenant : UsageScope → Option String
scope_tenant UsageScope.platform = none
scope_tenant (UsageScope.tenant id) = some id

abbrev pub read {ℓ} : {A : Type ℓ} → Bool → A → Result A
read true rows = ok rows
read false rows = err (internal "database error")

module _ (now : ℕ) (reached : Bool) (s : Store) (tables : UsageTables) (scope : UsageScope) where
  -- The window and the rows of a request.
  abbrev pub windowed {ℓ} :
      {A : Type ℓ}
      → (Option String → String → String → UsageTables → A)
      → UsageQuery
      → Result (Window × A)
  windowed rows_of query = do
    w ← usage_window now s scope query
    rows ← read reached (rows_of (scope_tenant scope) w.start w.end tables)
    ok (w, rows)

  unfoldable pub usage_daily : UsageQuery → Result (List DailyUsageRow)
  usage_daily query = do found ← windowed usage_daily_rows query; ok (aggregate_daily found.1)

  unfoldable pub usage_errors : UsageQuery → Result (List ErrorTrend)
  usage_errors query = do
    found ← windowed usage_daily_rows query
    ok (aggregate_errors found.1 found.0.dated)

  module _ (f : Floats) where
    unfoldable pub usage_latency : UsageQuery → Result (List LatencyTrend)
    usage_latency query = do
      found ← windowed query_usage_latency query
      ok (aggregate_latency f found.1 found.0.dated)

    unfoldable pub usage_languages : UsageQuery → Result (List (LanguageDistribution f))
    usage_languages query = do
      found ← windowed usage_daily_rows query
      ok (aggregate_languages f found.1 found.0.dated)
