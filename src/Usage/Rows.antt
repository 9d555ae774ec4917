-- ===== src/Usage/Rows.antt =====
-- src/usage.rs and src/store.rs: the rows that a usage query gives. A count is never negative.
use rustspell_server.Base.{
  ℕ, ◌+◌, String, ◌≡◌, ◌↔◌, Bool, true, ◌&&◌, Option, List, [], ◌∷◌, map, arith, Eq, ◌==◌,
  string_eq, retain,
}
use rustspell_server.Base.Int.{ℤ}
use rustspell_server.Base.Dict.{Dict, lookup, insert}
use rustspell_server.Usage.Recorder.{DailyCounters, LatencyKey, int_beq, int_beq_iff, or_zero}
use rustspell_server.Usage.Rollup.{UsageTables, DailyGroup, in_range, in_scope, query_usage_daily}

pub record UsageDailyRow : Type 0 where
  pub day : String
  pub language : String
  pub status : ℕ
  pub error_slug : String
  pub request_count : ℕ
  pub latency_sum_us : ℕ

abbrev pub daily_row : DailyGroup × DailyCounters → UsageDailyRow
daily_row (g, c) = record {
  day = g.day;
  language = g.language;
  status = g.status;
  error_slug = g.error_slug;
  request_count = c.request_count;
  latency_sum_us = c.latency_sum_us;
}

unfoldable pub usage_daily_rows : Option String → String → String → UsageTables → List UsageDailyRow
usage_daily_rows tenant_id start end t = map daily_row (query_usage_daily tenant_id start end t)

pub record UsageLatencyRow : Type 0 where
  pub day : String
  pub bucket_le_ms : ℤ
  pub request_count : ℕ

-- The columns of `GROUP BY`.
pub record LatencyGroup : Type 0 where
  pub day : String
  pub bucket_le_ms : ℤ

abbrev pub latency_group_test : LatencyGroup → LatencyGroup → Bool
latency_group_test a b = a.day == b.day && int_beq a.bucket_le_ms b.bucket_le_ms

pub latency_group_test_iff : (a b : LatencyGroup) → (latency_group_test a b ≡ true) ↔ (a ≡ b)
latency_group_test_iff a b =
    ground (arith, string_eq.test_iff a.day b.day, int_beq_iff a.bucket_le_ms b.bucket_le_ms)

instance abbrev pub latency_group_eq : Eq LatencyGroup
latency_group_eq = record { test = latency_group_test; test_iff = latency_group_test_iff }

abbrev pub latency_group_of : LatencyKey → LatencyGroup
latency_group_of k = record { day = k.day; bucket_le_ms = k.bucket_le_ms }

unfoldable pub group_latency : Dict LatencyKey ℕ → Dict LatencyGroup ℕ
group_latency [] = []
group_latency ((k, n) ∷ rows) =
    let groups = group_latency rows in
    insert (latency_group_of k) (or_zero (lookup (latency_group_of k) groups) + n) groups

abbrev pub latency_row : LatencyGroup × ℕ → UsageLatencyRow
latency_row (g, n) = record { day = g.day; bucket_le_ms = g.bucket_le_ms; request_count = n }

unfoldable pub query_usage_latency :
    Option String → String → String → UsageTables → List UsageLatencyRow
query_usage_latency tenant_id start end t = map latency_row (
    group_latency
      (retain (λ (k, n). in_range start end k.day && in_scope tenant_id k.tenant_id) t.latency))
