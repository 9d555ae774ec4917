-- ===== src/Store/Tenants/Quota.antt =====
-- src/store.rs: the request quota.
use rustspell_server.Base.{
  ℕ, ◌+◌, ◌-◌, ◌^◌, ◌<◌, min, String, ◌≡◌, refl, inl, inr, false, not, ◌&&◌, none, some, List, [],
  ◌∷◌, arith, eqb, if◌then◌else◌, Bool-cases, Option-cases, ◌==◌, string_eq, ==-refl,
}
use rustspell_server.Base.Dict.{lookup, lookup-modify}
use rustspell_server.Store.Data.{TenantInfo, Store}
use rustspell_server.Store.Tenants.{is_exhausted, consumed, try_consume_quota}

-- Requests of any tenants, one after the other: how many of `id`'s are admitted, and the store that
-- they all leave.
unfoldable pub serve : String → List String → Store → ℕ × Store
serve id [] s = (0, s)
serve id (j ∷ js) s =
    let (admitted, t) = try_consume_quota j s in
    let (count, u) = serve id js t in (if (j == id) && admitted then count + 1 else count, u)

-- The requests of one tenant.
abbrev pub requests : String → List String → ℕ
requests id [] = 0
requests id (j ∷ js) = if j == id then requests id js + 1 else requests id js

-- One request of a tenant that is known.
known-try_consume_quota :
    (id : String) (s : Store) (t : TenantInfo)
    → lookup id s.tenants ≡ some t
    → ((try_consume_quota id s).0 ≡ not (is_exhausted t))
      × (lookup id (try_consume_quota id s).1.tenants
          ≡ some (if is_exhausted t then t else consumed t))
unfolding try_consume_quota
known-try_consume_quota id s t e = elim (Bool-cases (is_exhausted t)) [
  | inl full ↦ (rw (e, full, try_consume_quota), rw (e, full, try_consume_quota) e)
  | inr room ↦ (
    rw (e, room, try_consume_quota),
    rw (e, room, try_consume_quota, lookup-modify id id consumed s.tenants, ==-refl id, e) refl,
  )
]

abbrev pub counted : ℕ → TenantInfo → TenantInfo
counted n t = record t { request_count = t.request_count + n }

unknown-try_consume_quota :
    (id : String) (s : Store) → lookup id s.tenants ≡ none → try_consume_quota id s ≡ (false, s)
unfolding try_consume_quota
unknown-try_consume_quota id s e = rw (e, try_consume_quota) refl

-- The requests that a tenant may still make, of `n`.
abbrev pub allowance : ℕ → TenantInfo → ℕ
allowance n t = if eqb t.quota_limit 0 then n else min n (t.quota_limit - t.request_count)

-- The counter stays clear of its wrap-around.
abbrev pub Fits : ℕ → TenantInfo → Type 0
Fits n t = (t.quota_limit < 2 ^ 64) × (t.request_count + n < 2 ^ 64)

-- A request of another tenant leaves the entry alone.
other-try_consume_quota :
    (j id : String) (s : Store)
    → (j == id) ≡ false
    → lookup id (try_consume_quota j s).1.tenants ≡ lookup id s.tenants
unfolding try_consume_quota
other-try_consume_quota j id s n = elim (Option-cases (lookup j s.tenants)) [
  | inl e ↦ rw (e, try_consume_quota) refl
  | inr (t, e) ↦ elim (Bool-cases (is_exhausted t)) [
    | inl full ↦ rw (e, full, try_consume_quota) refl
    | inr room ↦ rw (e, room, try_consume_quota, lookup-modify j id consumed s.tenants, n) refl
  ]
]

-- In any order of requests, exactly as many of a known tenant's are admitted as its limit leaves
-- room for (all of them where the limit is zero), and its counter grows by as many, where the limit
-- and the counter with all its requests are below 2^64.
pub serve-allowance :
    (id : String) (js : List String) (s : Store) (t : TenantInfo)
    → lookup id s.tenants ≡ some t
    → Fits (requests id js) t
    → ((serve id js s).0 ≡ allowance (requests id js) t)
      × (lookup id (serve id js s).1.tenants ≡ some (counted (allowance (requests id js) t) t))
unfolding serve
serve-allowance id [] s t e f = (ground arith, ground arith)
serve-allowance id (j ∷ js) s t e f = elim (Bool-cases (j == id)) [
  | inr other ↦ ground (
    arith,
    other-try_consume_quota j id s other,
    serve-allowance id js (try_consume_quota j s).1 t,
  )
  | inl hit ↦ elim (Bool-cases (is_exhausted t)) [
    | inl full ↦ ground (
      arith,
      string_eq.test_iff j id,
      known-try_consume_quota j s t,
      serve-allowance id js (try_consume_quota j s).1 t,
    )
    | inr room ↦ ground (
      arith,
      string_eq.test_iff j id,
      known-try_consume_quota j s t,
      serve-allowance id js (try_consume_quota j s).1 (consumed t),
    )
  ]
]

-- A tenant that is not known is admitted nothing.
pub unknown-serve :
    (id : String) (js : List String) (s : Store)
    → lookup id s.tenants ≡ none
    → (serve id js s).0 ≡ 0
unfolding serve
unknown-serve id [] s e = refl
unknown-serve id (j ∷ js) s e = elim (Bool-cases (j == id)) [
  | inr other ↦
      ground
        (arith, other-try_consume_quota j id s other, unknown-serve id js (try_consume_quota j s).1)
  | inl hit ↦
      ground (arith, string_eq.test_iff j id, unknown-try_consume_quota j s, unknown-serve id js s)
]
