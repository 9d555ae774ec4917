-- ===== src/Usage/Aggregate/Totals.antt =====
-- src/usage.rs: the aggregates lose no request and count none twice.
use rustspell_server.Base.{
  ℕ, ◌+◌, ◌≡◌, refl, ◌∙◌, sym, Bool, Option, none, some, List, [], ◌∷◌, map, arith, if◌then◌else◌,
  Eq, retain, sum_by, string_eq,
}
use rustspell_server.Base.Dict.{Dict, values, lookup, insert}
use rustspell_server.Base.Dict.Group.{or_else, group_into}
use rustspell_server.Base.Floats.{Floats}
use rustspell_server.Base.Sort.{sum_by-sort_by}
use rustspell_server.Usage.Recorder.Totals.{value_of, sum-insert}
use rustspell_server.Usage.Rows.{UsageDailyRow}
use rustspell_server.Usage.Aggregate.{
  no_totals, is_error, add_row, day_of, daily_usage_row, by_date, aggregate_daily, error_key_eq,
  language_key_eq, error_key, add_count, error_trend, error_leb, aggregate_errors, language_key,
  language_distribution, language_leb, aggregate_languages,
}

module _ {ℓ κ μ} {R : Type ℓ} {K : Type κ} {V : Type μ} ⦃e : Eq K⦄ (key : R → K) (zero : V)
    (add : R → V → V) (f : V → ℕ) (g : R → ℕ) (none_yet : f zero ≡ 0)
    (adds : (r : R) (v : V) → f (add r v) ≡ f v + g r) where
  value-or_else : (o : Option V) → f (or_else zero o) ≡ value_of f o
  value-or_else none = none_yet
  value-or_else (some v) = refl

  -- What the items add to a sum is in the groups.
  sum-group_into :
      (rs : List R) (m : Dict K V)
      → sum_by f (values (group_into key zero add rs m)) ≡ sum_by f (values m) + sum_by g rs
  unfolding group_into
  sum-group_into [] m = omega arith
  sum-group_into (r ∷ rs) m =
      let old = lookup (key r) m in
      let new = add r (or_else zero old) in
      omega (
        arith,
        sum-group_into rs (insert (key r) new m),
        sum-insert f (key r) new m,
        adds r (or_else zero old),
        value-or_else old,
      )

  sum-group_of : (rs : List R) → sum_by f (values (group_into key zero add rs [])) ≡ sum_by g rs
  sum-group_of rs = omega (arith, sum-group_into rs [])

sum_by-entries {ℓ κ μ} :
    {K : Type ℓ} {V : Type κ} {B : Type μ} (h : K × V → B) (f : B → ℕ) (g : V → ℕ)
    → ((k : K) (v : V) → f (h (k, v)) ≡ g v)
    → (m : Dict K V) → sum_by f (map h m) ≡ sum_by g (values m)
sum_by-entries h f g same [] = refl
sum_by-entries h f g same ((k, v) ∷ m) = omega (arith, same k v, sum_by-entries h f g same m)

sum_by-retain :
    (p : UsageDailyRow → Bool) (f : UsageDailyRow → ℕ) (rows : List UsageDailyRow)
    → sum_by f (retain p rows) ≡ sum_by (λ r. if p r then f r else 0) rows
sum_by-retain p f [] = refl
sum_by-retain p f (r ∷ rows) = ground (arith, sum_by-retain p f rows)

-- The requests of the days of an answer add up to those of the rows.
pub aggregate_daily-requests :
    (rows : List UsageDailyRow)
    → sum_by (λ d. d.requests) (aggregate_daily rows) ≡ sum_by (λ r. r.request_count) rows
unfolding aggregate_daily
aggregate_daily-requests rows =
    sum_by-sort_by by_date _ _
    ∙ sum_by-entries daily_usage_row _ (λ t. t.requests) (λ k v. refl) _
    ∙ sum-group_of day_of no_totals add_row (λ t. t.requests) (λ r. r.request_count) refl
        (λ r v. refl) rows

aggregate_daily-errors :
    (rows : List UsageDailyRow)
    → sum_by (λ d. d.errors) (aggregate_daily rows)
      ≡ sum_by (λ r. r.request_count) (retain is_error rows)
unfolding aggregate_daily
aggregate_daily-errors rows =
    sum_by-sort_by by_date _ _
    ∙ sum_by-entries daily_usage_row _ (λ t. t.errors) (λ k v. refl) _
    ∙ sum-group_of day_of no_totals add_row (λ t. t.errors)
        (λ r. if is_error r then r.request_count else 0) refl (λ r v. ground arith) rows
    ∙ sym (sum_by-retain is_error (λ r. r.request_count) rows)

aggregate_errors-count :
    (rows : List UsageDailyRow) (dated : Bool)
    → sum_by (λ t. t.count) (aggregate_errors rows dated)
      ≡ sum_by (λ r. r.request_count) (retain is_error rows)
unfolding aggregate_errors
aggregate_errors-count rows dated =
    sum_by-sort_by error_leb _ _
    ∙ sum_by-entries error_trend _ (λ n. n) (λ k v. refl) _
    ∙ sum-group_of (error_key dated) 0 add_count (λ n. n) (λ r. r.request_count) refl (λ r v. refl)
        (retain is_error rows)

aggregate_languages-count :
    (f : Floats) (rows : List UsageDailyRow) (dated : Bool)
    → sum_by (λ d. d.count) (aggregate_languages f rows dated) ≡ sum_by (λ r. r.request_count) rows
unfolding aggregate_languages
aggregate_languages-count f rows dated =
    sum_by-sort_by (language_leb f) _ _
    ∙ sum_by-entries (language_distribution f _) _ (λ n. n) (λ k v. refl) _
    ∙ sum-group_of (language_key dated) 0 add_count (λ n. n) (λ r. r.request_count) refl
        (λ r v. refl) rows

-- The three answers agree on the same rows: the errors by code add up to the errors by day, and the requests by language
-- to the requests by day, whether dated or not.
pub aggregate-Agrees :
    (f : Floats) (rows : List UsageDailyRow) (dated : Bool)
    → (sum_by (λ t. t.count) (aggregate_errors rows dated)
        ≡ sum_by (λ d. d.errors) (aggregate_daily rows))
      × (sum_by (λ d. d.count) (aggregate_languages f rows dated)
          ≡ sum_by (λ d. d.requests) (aggregate_daily rows))
aggregate-Agrees f rows dated = (
  aggregate_errors-count rows dated ∙ sym (aggregate_daily-errors rows),
  aggregate_languages-count f rows dated ∙ sym (aggregate_daily-requests rows),
)
