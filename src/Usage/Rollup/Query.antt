-- ===== src/Usage/Rollup/Query.antt =====
-- src/store.rs: what a query of the rollup reads.
use rustspell_server.Base.{
  ℕ, String, ◌≡◌, refl, ap, Bool, true, false, ◌&&◌, Option, none, some, List, [], ◌∷◌, retain,
  sum_by, arith, ◌==◌, string_eq,
}
use rustspell_server.Base.Dict.{Dict, values, lookup}
use rustspell_server.Usage.Recorder.{DailyKey, DailyCounters, counters_or_default}
use rustspell_server.Usage.Recorder.Totals.{sum-insert, value-daily}
use rustspell_server.Usage.Rollup.{
  UsageTables, add_counters, text_leb, daily_group_eq, group_of, group_daily, in_scope, in_range,
  query_usage_daily, since,
}

-- The table with the rows of one tenant only.
abbrev pub only : String → UsageTables → UsageTables
only id t = record t { daily = retain (λ (k, c). k.tenant_id == id) t.daily }

pub retain-retain {ℓ} :
    {A : Type ℓ} (p q r : A → Bool) (xs : List A)
    → ((x : A) → p x ≡ (q x && r x))
    → retain p xs ≡ retain q (retain r xs)
retain-retain p q r [] h = refl
retain-retain p q r (x ∷ xs) h = ground (arith, h x, retain-retain p q r xs h)

-- A query for one tenant gives what the query for all gives on a table with only that tenant's
-- rows.
pub query_usage_daily-only :
    (id start end : String) (t : UsageTables)
    → query_usage_daily (some id) start end t ≡ query_usage_daily none start end (only id t)
unfolding query_usage_daily
query_usage_daily-only id start end t = ap group_daily (
    retain-retain _ (λ (k, c). in_range start end k.day && true) (λ (k, c). k.tenant_id == id)
      t.daily (λ x. ground arith))

pub text_leb_trans :
    (a b c : String) → text_leb a b ≡ true → text_leb b c ≡ true → text_leb a c ≡ true
unfolding text_leb
text_leb_trans String.[] b c h k = refl
text_leb_trans (String.◌∷◌ x a) String.[] c h k = absurd (cc)
text_leb_trans (String.◌∷◌ x a) (String.◌∷◌ y b) String.[] h k = absurd (cc)
text_leb_trans (String.◌∷◌ x a) (String.◌∷◌ y b) (String.◌∷◌ z c) h k =
    ground (arith, text_leb_trans a b c)

pub text_leb_total : (a b : String) → text_leb a b ≡ false → text_leb b a ≡ true
unfolding text_leb
text_leb_total String.[] b h = absurd (cc)
text_leb_total (String.◌∷◌ c a) String.[] h = refl
text_leb_total (String.◌∷◌ c a) (String.◌∷◌ d b) h = ground (arith, text_leb_total a b)

retain-skip {ℓ} :
    {A : Type ℓ} (p q : A → Bool) (xs : List A)
    → ((x : A) → p x ≡ true → q x ≡ true)
    → retain p (retain q xs) ≡ retain p xs
retain-skip p q [] h = refl
retain-skip p q (x ∷ xs) h = ground (arith, h x, retain-skip p q xs h)

-- The deletion of the rows before a cutoff day does not change what a query gives that starts at
-- that day or later.
pub query_usage_daily-since :
    (tenant_id : Option String) (cutoff_day start end : String) (t : UsageTables)
    → text_leb cutoff_day start ≡ true
    → query_usage_daily tenant_id start end (since cutoff_day t)
      ≡ query_usage_daily tenant_id start end t
unfolding query_usage_daily
query_usage_daily-since tenant_id cutoff_day start end t h = ap group_daily (
    retain-skip _ (λ (k, c). text_leb cutoff_day k.day) t.daily
      (λ x e. text_leb_trans cutoff_day start x.0.day h (ground arith)))

group_daily-total :
    (rows : Dict DailyKey DailyCounters)
    → sum_by (λ c. c.request_count) (values (group_daily rows))
      ≡ sum_by (λ c. c.request_count) (values rows)
unfolding group_daily
group_daily-total [] = refl
group_daily-total ((k, c) ∷ rows) =
    let groups = group_daily rows in
    let old = lookup (group_of k) groups in
    let count : DailyCounters → ℕ = λ c. c.request_count in
    omega (
      arith,
      group_daily-total rows,
      value-daily old,
      sum-insert count (group_of k) (add_counters (counters_or_default old) c) groups,
    )

-- The grouping loses no request and counts none twice: the counts of a query's groups add up to
-- those of the rows that lie in its range of days and in its scope.
pub query_usage_daily-total :
    (tenant_id : Option String) (start end : String) (t : UsageTables)
    → sum_by (λ c. c.request_count) (values (query_usage_daily tenant_id start end t))
      ≡ sum_by
          (λ c. c.request_count)
          (values
            (retain (λ (k, c). in_range start end k.day && in_scope tenant_id k.tenant_id) t.daily))
unfolding query_usage_daily
query_usage_daily-total tenant_id start end t = group_daily-total _
