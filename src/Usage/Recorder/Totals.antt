-- ===== src/Usage/Recorder/Totals.antt =====
-- src/usage.rs: no request is lost or counted twice between the middleware and a flush.
use rustspell_server.Base.{
  ℕ, ◌+◌, ◌/◌, ◌%◌, ◌^◌, ◌≤◌, ◌<◌, ◌≡◌, refl, ◌↔◌, Bool, true, false, Option, none, some, List, [],
  ◌∷◌, length, sum_by, All, arith, leb, if◌then◌else◌, Eq, ◌==◌,
}
use rustspell_server.Base.Int.{ℤ, pos, negsuc}
use rustspell_server.Base.Dict.{Dict, values, lookup, insert, lookup-insert}
use rustspell_server.Usage.Recorder.{
  DailyKey, DailyCounters, LatencyKey, UsageRecorder, Sample, daily_key_eq, latency_key_eq,
  daily_key, latency_key, new_recorder, record_sample, bucket_for, latency_buckets_ms, count_one,
  counters_or_default, or_zero,
}

-- The recorder after the samples, the latest first.
unfoldable pub record_all : List Sample → UsageRecorder
record_all [] = new_recorder
record_all (x ∷ xs) = record_sample x (record_all xs)

-- The samples that a daily counter, or a bucket of the ladder, stands for.
abbrev pub requests_of : DailyKey → List Sample → ℕ
requests_of k [] = 0
requests_of k (x ∷ xs) = if daily_key x == k then requests_of k xs + 1 else requests_of k xs

abbrev pub micros_of : DailyKey → List Sample → ℕ
micros_of k [] = 0
micros_of k (x ∷ xs) =
    if daily_key x == k then micros_of k xs + x.latency / 10 ^ 3 else micros_of k xs

abbrev pub bucketed : LatencyKey → List Sample → ℕ
bucketed k [] = 0
bucketed k (x ∷ xs) = if latency_key x == k then bucketed k xs + 1 else bucketed k xs

-- Every counter holds the number of the requests with its day, tenant, language, status and slug,
-- and their latency; every bucket the number of the requests of its day and tenant that fell into
-- it; each up to the width of its counter.
pub record_all-Counts :
    (xs : List Sample) (k : DailyKey) (l : LatencyKey)
    → ((counters_or_default (lookup k (record_all xs).daily)).request_count
        ≡ requests_of k xs % 2 ^ 64)
      × ((counters_or_default (lookup k (record_all xs).daily)).latency_sum_us
          ≡ micros_of k xs % 2 ^ 64)
      × (or_zero (lookup l (record_all xs).latency) ≡ bucketed l xs % 2 ^ 64)
unfolding record_all record_sample lookup
record_all-Counts [] k l = (omega arith, omega arith, omega arith)
record_all-Counts (x ∷ xs) k l =
    let u = record_all xs in
    ground (
      arith,
      daily_key_eq.test_iff (daily_key x) k,
      latency_key_eq.test_iff (latency_key x) l,
      lookup-insert (daily_key x) k
          (count_one x.latency (counters_or_default (lookup (daily_key x) u.daily))) u.daily,
      lookup-insert (latency_key x) l ((or_zero (lookup (latency_key x) u.latency) + 1) % 2 ^ 64)
          u.latency,
      record_all-Counts xs k l,
      record_all-Counts xs (daily_key x) (latency_key x),
    )

abbrev pub value_of {κ} : {V : Type κ} → (V → ℕ) → Option V → ℕ
value_of f none = 0
value_of f (some v) = f v

module _ {ℓ κ} {K : Type ℓ} ⦃e : Eq K⦄ {V : Type κ} where
  pub sum-insert :
      (f : V → ℕ) (k : K) (v : V) (m : Dict K V)
      → sum_by f (values (insert k v m)) + value_of f (lookup k m) ≡ sum_by f (values m) + f v
  unfolding insert lookup
  sum-insert f k v [] = omega arith
  sum-insert f k v ((j, w) ∷ m) = ground (arith, sum-insert f k v m)

  value-le_sum : (f : V → ℕ) (k : K) (m : Dict K V) → value_of f (lookup k m) ≤ sum_by f (values m)
  unfolding lookup
  value-le_sum f k [] = omega arith
  value-le_sum f k ((j, w) ∷ m) = ground (arith, value-le_sum f k m)

pub value-daily :
    (o : Option DailyCounters)
    → value_of (λ c. c.request_count) o ≡ (counters_or_default o).request_count
value-daily none = refl
value-daily (some c) = refl

value-latency : (o : Option ℕ) → value_of (λ n. n) o ≡ or_zero o
value-latency none = refl
value-latency (some n) = refl

-- Over all their keys the two buffers each count exactly the requests that were recorded, if these
-- are fewer than 2^64.
pub record_all_total :
    (xs : List Sample)
    → length xs < 2 ^ 64
    → (sum_by (λ c. c.request_count) (values (record_all xs).daily) ≡ length xs)
      × (sum_by (λ n. n) (values (record_all xs).latency) ≡ length xs)
unfolding record_all record_sample
record_all_total [] h = (refl, refl)
record_all_total (x ∷ xs) h =
    let u = record_all xs in
    let (d, l) = record_all_total xs (omega (arith, h)) in
    let c = counters_or_default (lookup (daily_key x) u.daily) in
    let n = or_zero (lookup (latency_key x) u.latency) in
    let count : DailyCounters → ℕ = λ c. c.request_count in
    let id : ℕ → ℕ = λ n. n in
    (
      omega (
        arith,
        d,
        h,
        value-daily (lookup (daily_key x) u.daily),
        value-le_sum count (daily_key x) u.daily,
        sum-insert count (daily_key x) (count_one x.latency c) u.daily,
      ),
      omega (
        arith,
        l,
        h,
        value-latency (lookup (latency_key x) u.latency),
        value-le_sum id (latency_key x) u.latency,
        sum-insert id (latency_key x) ((n + 1) % 2 ^ 64) u.latency,
      ),
    )

abbrev pub at_most : ℤ → ℕ → Bool
at_most (pos c) b = leb c b
at_most (negsuc _) b = false

-- A latency's bucket lies at or below a bound of the ladder exactly where the latency in whole
-- milliseconds, if below 2^63, does.
pub bucket_for-at_most :
    (latency : ℕ)
    → latency / 10 ^ 6 < 2 ^ 63
    → All (λ b. (at_most (bucket_for latency) b ≡ true) ↔ (latency / 10 ^ 6 ≤ b)) latency_buckets_ms
unfolding bucket_for
bucket_for-at_most latency h = ground arith
