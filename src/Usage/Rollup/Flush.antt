-- ===== src/Usage/Rollup/Flush.antt =====
-- src/store.rs, src/usage.rs: from the recorder to the tables, no request is lost or counted twice.
use rustspell_server.Base.{
  ℕ, ◌+◌, ◌%◌, ◌^◌, ◌≡◌, refl, Bool, true, ◌&&◌, Bool-cases, inl, inr, Option, none, some, List, [],
  ◌∷◌, length, arith, Eq,
}
use rustspell_server.Base.Dict.{Dict, lookup, insert, lookup-insert}
use rustspell_server.Base.Dict.Distinct.{Absent, IsDistinct, insert-IsDistinct}
use rustspell_server.Usage.Recorder.{
  DailyKey, DailyCounters, LatencyKey, Sample, daily_key_eq, latency_key_eq, daily_key, latency_key,
  new_recorder, record_sample, drain, counters_or_default, or_zero,
}
use rustspell_server.Usage.Recorder.Totals.{
  record_all, requests_of, micros_of, bucketed, record_all-Counts,
}
use rustspell_server.Usage.Rollup.{
  UsageTables, add_counters, upsert_daily, upsert_latency, all_reached, is_nil, flush_usage,
}

-- What a table holds at a key.
abbrev pub daily_at : DailyKey → Dict DailyKey DailyCounters → DailyCounters
daily_at k m = counters_or_default (lookup k m)

abbrev pub latency_at : LatencyKey → Dict LatencyKey ℕ → ℕ
latency_at k m = or_zero (lookup k m)

Absent-lookup {ℓ κ} :
    {K : Type ℓ} ⦃e : Eq K⦄ {V : Type κ} (k : K) (m : Dict K V) → Absent k m → lookup k m ≡ none
unfolding lookup
Absent-lookup k [] h = refl
Absent-lookup ⦃e⦄ k ((j, v) ∷ m) h = ground (arith, Absent-lookup k m)

-- A batch with one entry for each key adds it to what was there.
upsert_daily-adds :
    (k : DailyKey) (batch rows : Dict DailyKey DailyCounters)
    → IsDistinct batch
    → daily_at k (upsert_daily batch rows) ≡ add_counters (daily_at k rows) (daily_at k batch)
unfolding upsert_daily lookup
upsert_daily-adds k [] rows d = ground arith
upsert_daily-adds k ((j, c) ∷ batch) rows d =
    let sum = add_counters (counters_or_default (lookup j rows)) c in
    ground (
      arith,
      daily_key_eq.test_iff j k,
      Absent-lookup j batch d.0,
      lookup-insert j k sum rows,
      upsert_daily-adds k batch (insert j sum rows) d.1,
    )

upsert_latency-adds :
    (k : LatencyKey) (batch rows : Dict LatencyKey ℕ)
    → IsDistinct batch
    → latency_at k (upsert_latency batch rows) ≡ latency_at k rows + latency_at k batch
unfolding upsert_latency lookup
upsert_latency-adds k [] rows d = omega arith
upsert_latency-adds k ((j, n) ∷ batch) rows d =
    let sum = or_zero (lookup j rows) + n in
    ground (
      arith,
      latency_key_eq.test_iff j k,
      Absent-lookup j batch d.0,
      lookup-insert j k sum rows,
      upsert_latency-adds k batch (insert j sum rows) d.1,
    )

record_all-IsDistinct :
    (xs : List Sample) → IsDistinct (record_all xs).daily × IsDistinct (record_all xs).latency
unfolding record_all record_sample
record_all-IsDistinct [] = (tt, tt)
record_all-IsDistinct (x ∷ xs) =
    let (d, l) = record_all-IsDistinct xs in
    (insert-IsDistinct (daily_key x) _ _ d, insert-IsDistinct (latency_key x) _ _ l)

-- What a flush of the drained samples has done to the tables at any key: with an error nothing.
abbrev pub Flushes : List Sample → UsageTables → Option UsageTables → Type 0
Flushes xs t none = Unit
Flushes xs t (some u) =
    (k : DailyKey) (l : LatencyKey)
    → ((daily_at k u.daily).request_count
        ≡ (daily_at k t.daily).request_count + requests_of k xs % 2 ^ 64)
      × ((daily_at k u.daily).latency_sum_us
          ≡ (daily_at k t.daily).latency_sum_us + micros_of k xs % 2 ^ 64)
      × (latency_at l u.latency ≡ latency_at l t.latency + bucketed l xs % 2 ^ 64)

-- The same for one batch.
abbrev AddsBatch :
    Dict DailyKey DailyCounters → Dict LatencyKey ℕ → UsageTables → Option UsageTables → Type 0
AddsBatch daily latency t none = Unit
AddsBatch daily latency t (some u) =
    (k : DailyKey) (l : LatencyKey)
    → (daily_at k u.daily ≡ add_counters (daily_at k t.daily) (daily_at k daily))
      × (latency_at l u.latency ≡ latency_at l t.latency + latency_at l latency)

recorded :
    (xs : List Sample) (t : UsageTables) (o : Option UsageTables)
    → AddsBatch (record_all xs).daily (record_all xs).latency t o
    → Flushes xs t o
recorded xs t none h = tt
recorded xs t (some u) h = λ k l. ground (arith, h k l, record_all-Counts xs k l)

nothing_to_add :
    (daily : Dict DailyKey DailyCounters) (latency : Dict LatencyKey ℕ) (t : UsageTables)
    → (is_nil daily && is_nil latency) ≡ true
    → AddsBatch daily latency t (some t)
unfolding lookup
nothing_to_add [] [] t h = λ k l. (ground arith, omega arith)
nothing_to_add [] (x ∷ latency) t h = absurd (cc)
nothing_to_add (x ∷ daily) latency t h = absurd (cc)

flush_usage-AddsBatch :
    (sql_ok : ℕ → Bool) (daily : Dict DailyKey DailyCounters) (latency : Dict LatencyKey ℕ)
    (t : UsageTables)
    → IsDistinct daily
    → IsDistinct latency
    → AddsBatch daily latency t (flush_usage sql_ok daily latency t)
unfolding flush_usage
flush_usage-AddsBatch sql_ok daily latency t d l =
    elim (Bool-cases (is_nil daily && is_nil latency)) [
      | inl empty ↦ rw empty (nothing_to_add daily latency t empty)
      | inr full ↦
          rw full (elim (Bool-cases (all_reached sql_ok (length daily + length latency + 2))) [
            | inl reached ↦ rw reached (λ k j.
                (upsert_daily-adds k daily t.daily d, upsert_latency-adds j latency t.latency l))
            | inr failed ↦ rw failed tt
          ])
    ]

-- However many requests were recorded, the recorder is empty after its drain, and a flush of what
-- was drained, if it succeeds, adds to each row of both tables exactly the requests with its key,
-- and their latency, each up to the width of the recorder's counter.
pub flush_usage-Flushes :
    (sql_ok : ℕ → Bool) (xs : List Sample) (t : UsageTables)
    → ((drain (record_all xs)).1 ≡ new_recorder)
      × Flushes xs t (flush_usage sql_ok (drain (record_all xs)).0.0 (drain (record_all xs)).0.1 t)
unfolding drain flush_usage
flush_usage-Flushes sql_ok xs t =
    let u = record_all xs in
    let (d, l) = record_all-IsDistinct xs in
    (
      refl,
      recorded xs t (flush_usage sql_ok u.daily u.latency t)
          (flush_usage-AddsBatch sql_ok u.daily u.latency t d l),
    )
