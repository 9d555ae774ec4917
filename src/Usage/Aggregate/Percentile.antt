-- ===== src/Usage/Aggregate/Percentile.antt =====
-- src/usage.rs: percentiles of the latency histogram.
use rustspell_server.Base.{
  ℕ, ◌+◌, String, Bool, true, not, Option, none, some, List, [], ◌∷◌, ◌++◌, eqb, ltb, if◌then◌else◌,
  string_eq, option_eq, retain, sum_by, all, ◌<◌, ◌≡◌, ◌↔◌, refl, arith,
}
use rustspell_server.Base.Floats.{Floats, clamp_unit, hundredths}
use rustspell_server.Base.Int.{ℤ, pos, ◌-ℤ◌, leb_ℤ, pos_part}
use rustspell_server.Base.Dict.{Dict, lookup}
use rustspell_server.Base.Dict.Group.{or_else, group_into}
use rustspell_server.Base.Sort.{sort_by}
use rustspell_server.Usage.Recorder.{bucket_overflow, int_beq}
use rustspell_server.Usage.Rows.{UsageLatencyRow}
use rustspell_server.Usage.Aggregate.{date_leb, date_if}

-- A bucket's inclusive bound with its count.
abbrev pub Bucket : Type 0
Bucket = ℤ × ℕ

abbrev pub count_of : Bucket → ℕ
count_of (bound, count) = count

abbrev pub is_overflow : Bucket → Bool
is_overflow (bound, count) = int_beq bound bucket_overflow

abbrev pub bound_leb : Bucket → Bucket → Bool
bound_leb (a, m) (b, n) = leb_ℤ a b

-- The loop's end: at a value, or past the last bucket with its bound.
pub data Scan : Type 0 where
  found : ℕ → Scan
  passed : ℤ → Scan

-- The last of LATENCY_BUCKETS_MS.
abbrev pub last_finite : ℕ
last_finite = 1000

pub record LatencyTrend : Type 0 where
  pub date : Option String
  pub percentile : String
  pub value_ms : ℕ

abbrev pub push_bucket : UsageLatencyRow → List Bucket → List Bucket
push_bucket row buckets = buckets ++ (row.bucket_le_ms, row.request_count) ∷ []

abbrev pub latency_date : Bool → UsageLatencyRow → Option String
latency_date dated row = date_if dated row.day

unfoldable pub grouped_buckets : List UsageLatencyRow → Bool → Dict (Option String) (List Bucket)
grouped_buckets rows dated = group_into (latency_date dated) [] push_bucket rows []

abbrev pub keys {ℓ κ} : {K : Type ℓ} {V : Type κ} → Dict K V → List K
keys [] = []
keys ((k, v) ∷ m) = k ∷ keys m

abbrev pub trend_of : Option String → String → Option ℕ → List LatencyTrend
trend_of date label none = []
trend_of date label (some value_ms) =
    record { date = date; percentile = label; value_ms = value_ms } ∷ []

module _ (f : Floats) where
  unfoldable pub scan : f.Float → List Bucket → ℕ → ℤ → Scan
  scan rank [] cumulative lower = passed lower
  scan rank ((upper, count) ∷ rest) cumulative lower =
      let skip = scan rank rest cumulative upper in
      let further = scan rank rest (cumulative + count) upper in
      if eqb count 0
      then skip
      else if f.less_eq rank (f.from_int (pos (cumulative + count)))
      then (let into_bucket = f.sub rank (f.from_int (pos cumulative)) in
          let fraction = clamp_unit f (f.div into_bucket (f.from_int (pos count))) in
          found (
            f.to_u64
              (f.round (f.add (f.from_int lower) (f.mul (f.from_int (upper -ℤ lower)) fraction)))))
      else further

  abbrev pub scan_value : ℕ → Scan → ℕ
  scan_value overflow (found value) = value
  scan_value overflow (passed lower) = if ltb 0 overflow then last_finite else pos_part lower

  unfoldable pub percentile : List Bucket → f.Float → Option ℕ
  percentile buckets q =
      let total = sum_by count_of buckets in
      let ordered = sort_by bound_leb (retain (λ b. not (is_overflow b)) buckets) in
      let overflow = sum_by count_of (retain is_overflow buckets) in
      if eqb total 0
      then none
      else some (scan_value overflow (scan (f.mul q (f.from_int (pos total))) ordered 0 (pos 0)))

  abbrev pub trends_of : Option String → List Bucket → List LatencyTrend
  trends_of date buckets =
      trend_of date "p50" (percentile buckets (hundredths f 50))
      ++ trend_of date "p95" (percentile buckets (hundredths f 95))
      ++ trend_of date "p99" (percentile buckets (hundredths f 99))

  -- Every date has its buckets.
  unfoldable pub latency_trends :
      Dict (Option String) (List Bucket) → List (Option String) → List LatencyTrend
  latency_trends grouped [] = []
  latency_trends grouped (date ∷ dates) =
      trends_of date (or_else [] (lookup date grouped)) ++ latency_trends grouped dates

  unfoldable pub aggregate_latency : List UsageLatencyRow → Bool → List LatencyTrend
  aggregate_latency rows dated =
      let grouped = grouped_buckets rows dated in
      latency_trends grouped (sort_by date_leb (keys grouped))

-- A percentile is missing exactly when the histogram counts nothing.
pub percentile-none_iff :
    (f : Floats) (buckets : List Bucket) (q : f.Float)
    → (percentile f buckets q ≡ none) ↔ (sum_by count_of buckets ≡ 0)
unfolding percentile
percentile-none_iff f buckets q = ground arith

retain-none {ℓ} :
    {A : Type ℓ} (p : A → Bool) (xs : List A) → all p xs ≡ true → retain (λ x. not (p x)) xs ≡ []
retain-none p [] h = refl
retain-none p (x ∷ xs) h = ground (arith, retain-none p xs)

retain-all {ℓ} : {A : Type ℓ} (p : A → Bool) (xs : List A) → all p xs ≡ true → retain p xs ≡ xs
retain-all p [] h = refl
retain-all p (x ∷ xs) h = ground (arith, retain-all p xs)

-- Where every request was slower than the last bound, each percentile is that bound.
pub percentile-overflow :
    (f : Floats) (buckets : List Bucket) (q : f.Float)
    → all is_overflow buckets ≡ true
    → 0 < sum_by count_of buckets
    → percentile f buckets q ≡ some last_finite
unfolding percentile scan sort_by
percentile-overflow f buckets q h counted =
    rw (retain-none is_overflow buckets h, retain-all is_overflow buckets h) (ground arith)
