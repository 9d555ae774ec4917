-- ===== src/Handlers/Usage/Own.antt =====
-- src/handlers.rs: a tenant's answers come from its own rows only.
use rustspell_server.Base.{
  ℕ, String, ◌≡◌, refl, ap, map, Bool, true, ◌&&◌, none, some, arith, retain, ◌==◌, string_eq,
}
use rustspell_server.Base.Floats.{Floats}
use rustspell_server.Store.Data.{Store}
use rustspell_server.Auth.Request.{UsageScope}
use rustspell_server.Usage.Rollup.{UsageTables, in_range, query_usage_daily}
use rustspell_server.Usage.Rollup.Query.{only, query_usage_daily-only, retain-retain}
use rustspell_server.Usage.Rows.{
  daily_row, usage_daily_rows, group_latency, latency_row, query_usage_latency,
}
use rustspell_server.Usage.Windows.{resolve_window}
use rustspell_server.Usage.Windows.Ranges.{both}
use rustspell_server.Handlers.Usage.{
  usage_window, scope_tenant, usage_daily, usage_errors, usage_latency, usage_languages,
}

-- The tables with the rows of one tenant only.
abbrev pub own : String → UsageTables → UsageTables
own id t = record (only id t) { latency = retain (λ (k, n). k.tenant_id == id) t.latency }

daily_rows-own :
    (id start end : String) (t : UsageTables)
    → usage_daily_rows (some id) start end t ≡ usage_daily_rows none start end (own id t)
unfolding usage_daily_rows query_usage_daily
daily_rows-own id start end t = ap (map daily_row) (query_usage_daily-only id start end t)

latency_rows-own :
    (id start end : String) (t : UsageTables)
    → query_usage_latency (some id) start end t ≡ query_usage_latency none start end (own id t)
unfolding query_usage_latency
latency_rows-own id start end t =
    ap (λ rows. map latency_row (group_latency rows))
      (retain-retain _ (λ (k, n). in_range start end k.day && true) (λ (k, n). k.tenant_id == id)
        t.latency (λ x. ground arith))

-- For a range of days that the caller gives, each of the four answers to a tenant's admin is the answer that a platform key
-- would get if the tables held that tenant's rows only.
pub usage-Own :
    (f : Floats) (now : ℕ) (reached : Bool) (s : Store) (t : UsageTables) (id start end : String)
    → (usage_daily now reached s t (UsageScope.tenant id) (both start end)
        ≡ usage_daily now reached s (own id t) UsageScope.platform (both start end))
      × (usage_errors now reached s t (UsageScope.tenant id) (both start end)
          ≡ usage_errors now reached s (own id t) UsageScope.platform (both start end))
      × (usage_latency now reached s t (UsageScope.tenant id) f (both start end)
          ≡ usage_latency now reached s (own id t) UsageScope.platform f (both start end))
      × (usage_languages now reached s t (UsageScope.tenant id) f (both start end)
          ≡ usage_languages now reached s (own id t) UsageScope.platform f (both start end))
unfolding usage_daily usage_errors usage_latency usage_languages usage_window scope_tenant
    resolve_window
usage-Own f now reached s t id start end = (
  simp (daily_rows-own id) refl,
  simp (daily_rows-own id) refl,
  simp (latency_rows-own id) refl,
  simp (daily_rows-own id) refl,
)
