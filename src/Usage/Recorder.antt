-- ===== src/Usage/Recorder.antt =====
-- src/usage.rs: the buffer that counts requests in memory, and its latency ladder.
-- A counter of type `i64` is its bit pattern, below 2^64; a latency is in nanoseconds.
-- The caller gives the day, which the source formats from the clock.
pub mod Totals
use rustspell_server.Base.{
  ℕ, zero, suc, ◌+◌, ◌*◌, ◌/◌, ◌%◌, ◌^◌, String, ◌≡◌, refl, ap, ◌↔◌, Bool, true, false, ◌&&◌,
  Option, none, some, List, [], ◌∷◌, arith, leb, eqb, if◌then◌else◌, Eq, ◌==◌, nat_eq, string_eq,
}
use rustspell_server.Base.Int.{ℤ, pos, negsuc, as_i64}
use rustspell_server.Base.Dict.{Dict, lookup, insert}

pub record DailyKey : Type 0 where
  pub day : String
  pub tenant_id : String
  pub language : String
  pub status : ℕ
  pub error_slug : String

pub record DailyCounters : Type 0 where
  pub request_count : ℕ
  pub latency_sum_us : ℕ

pub record LatencyKey : Type 0 where
  pub day : String
  pub tenant_id : String
  pub bucket_le_ms : ℤ

abbrev pub daily_key_beq : DailyKey → DailyKey → Bool
daily_key_beq a b =
    a.day == b.day
    && a.tenant_id == b.tenant_id
    && a.language == b.language
    && a.status == b.status
    && a.error_slug == b.error_slug

pub daily_key_beq_iff : (a b : DailyKey) → (daily_key_beq a b ≡ true) ↔ (a ≡ b)
daily_key_beq_iff a b = ground (
  arith,
  string_eq.test_iff a.day b.day,
  string_eq.test_iff a.tenant_id b.tenant_id,
  string_eq.test_iff a.language b.language,
  string_eq.test_iff a.error_slug b.error_slug,
)

instance abbrev pub daily_key_eq : Eq DailyKey
daily_key_eq = record { test = daily_key_beq; test_iff = daily_key_beq_iff }

abbrev pub int_beq : ℤ → ℤ → Bool
int_beq (pos a) (pos b) = eqb a b
int_beq (negsuc a) (negsuc b) = eqb a b
int_beq _ _ = false

pub int_beq_iff : (a b : ℤ) → (int_beq a b ≡ true) ↔ (a ≡ b)
int_beq_iff (pos a) (pos b) = ground arith
int_beq_iff (negsuc a) (negsuc b) = ground arith
int_beq_iff (pos a) (negsuc b) = ground arith
int_beq_iff (negsuc a) (pos b) = ground arith

abbrev pub latency_key_beq : LatencyKey → LatencyKey → Bool
latency_key_beq a b =
    a.day == b.day && a.tenant_id == b.tenant_id && int_beq a.bucket_le_ms b.bucket_le_ms

pub latency_key_beq_iff : (a b : LatencyKey) → (latency_key_beq a b ≡ true) ↔ (a ≡ b)
latency_key_beq_iff a b = ground (
  arith,
  string_eq.test_iff a.day b.day,
  string_eq.test_iff a.tenant_id b.tenant_id,
  int_beq_iff a.bucket_le_ms b.bucket_le_ms,
)

instance abbrev pub latency_key_eq : Eq LatencyKey
latency_key_eq = record { test = latency_key_beq; test_iff = latency_key_beq_iff }

pub record UsageRecorder : Type 0 where
  pub daily : Dict DailyKey DailyCounters
  pub latency : Dict LatencyKey ℕ

abbrev pub new_recorder : UsageRecorder
new_recorder = record { daily = []; latency = [] }

-- LATENCY_BUCKETS_MS and BUCKET_OVERFLOW.
abbrev pub latency_buckets_ms : List ℕ
latency_buckets_ms = 1 ∷ 2 ∷ 5 ∷ 10 ∷ 25 ∷ 50 ∷ 100 ∷ 250 ∷ 500 ∷ 1000 ∷ []

abbrev pub bucket_overflow : ℤ
bucket_overflow = negsuc 0

abbrev int_leb : ℤ → ℕ → Bool
int_leb (pos ms) bound = leb ms bound
int_leb (negsuc _) bound = true

abbrev pub first_bound : ℤ → List ℕ → ℤ
first_bound ms [] = bucket_overflow
first_bound ms (bound ∷ bounds) = if int_leb ms bound then pos bound else first_bound ms bounds

unfoldable pub bucket_for : ℕ → ℤ
bucket_for latency = first_bound (as_i64 ((latency / 10 ^ 6) % 2 ^ 64)) latency_buckets_ms

abbrev pub counters_or_default : Option DailyCounters → DailyCounters
counters_or_default none = record { request_count = 0; latency_sum_us = 0 }
counters_or_default (some c) = c

abbrev pub or_zero : Option ℕ → ℕ
or_zero none = 0
or_zero (some n) = n

abbrev pub count_one : ℕ → DailyCounters → DailyCounters
count_one latency c = record c {
  request_count = (c.request_count + 1) % 2 ^ 64;
  latency_sum_us = (c.latency_sum_us + latency / 10 ^ 3) % 2 ^ 64;
}

-- One request, as the middleware reports it.
pub record Sample : Type 0 where
  pub day : String
  pub tenant_id : String
  pub language : String
  pub status : ℕ
  pub error_slug : String
  pub latency : ℕ

abbrev pub daily_key : Sample → DailyKey
daily_key x = record {
  day = x.day;
  tenant_id = x.tenant_id;
  language = x.language;
  status = x.status;
  error_slug = x.error_slug;
}

abbrev pub latency_key : Sample → LatencyKey
latency_key x = record { day = x.day; tenant_id = x.tenant_id; bucket_le_ms = bucket_for x.latency }

unfoldable pub record_sample : Sample → UsageRecorder → UsageRecorder
record_sample x u = record {
  daily =
      insert (daily_key x)
        (count_one x.latency (counters_or_default (lookup (daily_key x) u.daily))) u.daily;
  latency =
      insert (latency_key x) ((or_zero (lookup (latency_key x) u.latency) + 1) % 2 ^ 64) u.latency;
}

-- Both buffers, emptied.
unfoldable pub drain :
    UsageRecorder → (Dict DailyKey DailyCounters × Dict LatencyKey ℕ) × UsageRecorder
drain u = ((u.daily, u.latency), new_recorder)
