-- ===== src/Usage/Rollup.antt =====
-- src/store.rs: the tables of the usage rollup, with the statements on them. A table is the list of
-- its rows under their primary keys. A sum in SQL does not wrap; counts here stay far below its range.
-- A count of the recorder is added as its bit pattern, which past 2^63 would be a negative number in
-- the source. Days are compared as texts.
pub mod Flush
pub mod Query
use Prim.Native.Char.{code}
use rustspell_server.Base.{
  ℕ, zero, suc, ◌+◌, ◌-◌, String, ◌≡◌, ◌↔◌, Bool, true, false, not, ◌&&◌, Option, none, some, List,
  [], ◌∷◌, arith, leb, ltb, eqb, if◌then◌else◌, Eq, ◌==◌, string_eq, nat_eq, length, retain,
}
use rustspell_server.Base.Dict.{Dict, lookup, insert}
use rustspell_server.Usage.Recorder.{
  DailyKey, DailyCounters, LatencyKey, daily_key_eq, latency_key_eq, counters_or_default, or_zero,
}

-- `usage_daily` and `usage_latency`.
pub record UsageTables : Type 0 where
  pub daily : Dict DailyKey DailyCounters
  pub latency : Dict LatencyKey ℕ

abbrev pub add_counters : DailyCounters → DailyCounters → DailyCounters
add_counters old new = record {
  request_count = old.request_count + new.request_count;
  latency_sum_us = old.latency_sum_us + new.latency_sum_us;
}

-- `INSERT … ON CONFLICT … DO UPDATE SET`, which adds to the row that is there.
unfoldable pub upsert_daily :
    Dict DailyKey DailyCounters → Dict DailyKey DailyCounters → Dict DailyKey DailyCounters
upsert_daily [] rows = rows
upsert_daily ((k, c) ∷ batch) rows =
    upsert_daily batch (insert k (add_counters (counters_or_default (lookup k rows)) c) rows)

unfoldable pub upsert_latency : Dict LatencyKey ℕ → Dict LatencyKey ℕ → Dict LatencyKey ℕ
upsert_latency [] rows = rows
upsert_latency ((k, n) ∷ batch) rows =
    upsert_latency batch (insert k (or_zero (lookup k rows) + n) rows)

-- Every statement from the `n`-th on, `count` of them, reaches the database.
abbrev pub all_reached : (ℕ → Bool) → ℕ → Bool
all_reached sql_ok zero = true
all_reached sql_ok (suc count) = sql_ok count && all_reached sql_ok count

abbrev pub is_nil {ℓ} : {A : Type ℓ} → List A → Bool
is_nil [] = true
is_nil (x ∷ xs) = false

-- One transaction: its beginning, a statement for each entry, and the commit. `none` is an error, and
-- then the transaction is rolled back.
unfoldable pub flush_usage :
    (ℕ → Bool) → Dict DailyKey DailyCounters → Dict LatencyKey ℕ → UsageTables → Option UsageTables
flush_usage sql_ok daily latency t =
    if is_nil daily && is_nil latency
    then some t
    else if all_reached sql_ok (length daily + length latency + 2)
    then some
        (record { daily = upsert_daily daily t.daily; latency = upsert_latency latency t.latency })
    else none

-- `a <= b` on texts, by the codes of their characters.
unfoldable pub text_leb : String → String → Bool
text_leb String.[] b = true
text_leb (String.◌∷◌ c a) String.[] = false
text_leb (String.◌∷◌ c a) (String.◌∷◌ d b) =
    let rest = text_leb a b in
    if ltb (code c) (code d) then true else if ltb (code d) (code c) then false else rest

-- The columns of `GROUP BY`.
pub record DailyGroup : Type 0 where
  pub day : String
  pub language : String
  pub status : ℕ
  pub error_slug : String

abbrev pub daily_group_test : DailyGroup → DailyGroup → Bool
daily_group_test a b =
    a.day == b.day
    && a.language == b.language
    && a.status == b.status
    && a.error_slug == b.error_slug

pub daily_group_test_iff : (a b : DailyGroup) → (daily_group_test a b ≡ true) ↔ (a ≡ b)
daily_group_test_iff a b = ground (
  arith,
  string_eq.test_iff a.day b.day,
  string_eq.test_iff a.language b.language,
  string_eq.test_iff a.error_slug b.error_slug,
)

instance abbrev pub daily_group_eq : Eq DailyGroup
daily_group_eq = record { test = daily_group_test; test_iff = daily_group_test_iff }

abbrev pub group_of : DailyKey → DailyGroup
group_of k = record {
  day = k.day;
  language = k.language;
  status = k.status;
  error_slug = k.error_slug;
}

unfoldable pub group_daily : Dict DailyKey DailyCounters → Dict DailyGroup DailyCounters
group_daily [] = []
group_daily ((k, c) ∷ rows) =
    let groups = group_daily rows in
    insert (group_of k) (add_counters (counters_or_default (lookup (group_of k) groups)) c) groups

-- The filter of one tenant, or none.
abbrev pub in_scope : Option String → String → Bool
in_scope none owner = true
in_scope (some id) owner = owner == id

abbrev pub in_range : String → String → String → Bool
in_range start end day = text_leb start day && text_leb day end

unfoldable pub query_usage_daily :
    Option String → String → String → UsageTables → Dict DailyGroup DailyCounters
query_usage_daily tenant_id start end t =
    group_daily
      (retain (λ (k, c). in_range start end k.day && in_scope tenant_id k.tenant_id) t.daily)

-- `DELETE … WHERE day < ?` on both tables, in one transaction, with the number of deleted rows.
abbrev pub since : String → UsageTables → UsageTables
since cutoff_day t = record {
  daily = retain (λ (k, c). text_leb cutoff_day k.day) t.daily;
  latency = retain (λ (k, n). text_leb cutoff_day k.day) t.latency;
}

unfoldable pub purge_usage_before : (ℕ → Bool) → String → UsageTables → Option (ℕ × UsageTables)
purge_usage_before sql_ok cutoff_day t =
    if all_reached sql_ok 4
    then some (
      (length t.daily - length (since cutoff_day t).daily)
          + (length t.latency - length (since cutoff_day t).latency),
      since cutoff_day t,
    )
    else none
