-- ===== src/Auth/Gates.antt =====
-- src/auth.rs: the middleware that lets requests through; src/handlers.rs: `record_usage`. Each
-- layer takes the handler with the layers inside it.
-- A lock is held for one step, so a request here runs alone between its reads and writes.
pub mod Resolution
pub mod Layers
pub mod Admission
pub mod Served
pub mod Scope
pub mod Platform
use rustspell_server.Base.{
  ℕ, ◌/◌, ◌^◌, max, ◌≡◌, String, Bool, true, false, not, ◌&&◌, Option, none, some, List, [], any,
  if◌then◌else◌, ltb, is_some,
}
use rustspell_server.Error.{
  AppError, unauthorized, forbidden, rate_limited, quota_exceeded, Response, into_response,
}
use rustspell_server.Store.Data.{
  Role, platform, admin, standard, role_beq, KeyRecord, Store, TenantInfo,
}
use rustspell_server.Store.Keys.{authenticate, touch_last_used}
use rustspell_server.Store.Tenants.{get_tenant, try_consume_quota}
use rustspell_server.Store.Origins.{tenant_owns_origin}
use rustspell_server.Config.Cidr.{IpAddr, contains}
use rustspell_server.Usage.Recorder.{Sample, record_sample}
use rustspell_server.Auth.RateLimiter.{Verdict, clear, wait, check, record_failure}
use rustspell_server.Auth.ClientIp.{client_ip, resolved_client_ip}
use rustspell_server.Auth.Request.{
  ip_eq, UsageScope, Request, AppState, Moment, Answer, reply, panic, Next, reject,
}

-- The text of a header that came and is visible ASCII.
abbrev pub text_of : Option (Option String) → Option String
text_of none = none
text_of (some v) = v

abbrev pub fail_from : IpAddr → Moment → AppState → AppState
fail_from ip m a = record a { rate_limiter = record_failure ip m.instant a.rate_limiter }

-- `remaining.as_secs().max(1)`
abbrev pub retry_secs : ℕ → ℕ
retry_secs remaining = max (remaining / 10 ^ 9) 1

abbrev pub with_key : KeyRecord → Request → Request
with_key k r = record r { key_record = some k }

abbrev pub touch : Moment → KeyRecord → AppState → AppState
touch m k a = record a { store = touch_last_used m.env k.id a.store }

-- An empty list of ranges restricts nothing.
abbrev pub outside_cidrs : IpAddr → AppState → Bool
outside_cidrs ip a = elim a.dictionary_admin_cidrs [
  | [] ↦ false
  | _ ↦ not (any (λ c. contains c ip) a.dictionary_admin_cidrs)
]

module _ (sha256 : String → List ℕ) where
  abbrev pub with_record :
      IpAddr
      → Moment
      → (KeyRecord → AppState → Answer)
      → Option KeyRecord × Store
      → AppState
      → Answer
  with_record ip m k (none, s) a = reject unauthorized (fail_from ip m (record a { store = s }))
  with_record ip m k (some found, s) a = k found (record a { store = s })

  abbrev pub with_raw_key :
      IpAddr → Moment → (KeyRecord → AppState → Answer) → Option String → AppState → Answer
  with_raw_key ip m k none a = reject unauthorized (fail_from ip m a)
  with_raw_key ip m k (some raw_key) a =
      with_record ip m k (authenticate sha256 m.env raw_key a.store) a

  abbrev pub when_clear :
      IpAddr
      → Moment
      → (KeyRecord → AppState → Answer)
      → Option String
      → Verdict
      → AppState
      → Answer
  when_clear ip m k raw_key (wait remaining) a = reject (rate_limited (retry_secs remaining)) a
  when_clear ip m k raw_key clear a = with_raw_key ip m k raw_key a

  -- The part that three gates share: the limiter, the header, the key; `k` is what follows.
  unfoldable pub resolve_key :
      IpAddr → Moment → (KeyRecord → AppState → Answer) → Request → AppState → Answer
  resolve_key ip m k r a =
      when_clear ip m k (text_of r.x_api_key) (check ip m.instant a.rate_limiter) a

  unfoldable pub require_active_key : Moment → Next → Next
  require_active_key m next r a =
      resolve_key (client_ip r.peer) m (λ found b. next (with_key found r) (touch m found b)) r a

  unfoldable pub require_platform_key : Moment → Next → Next
  require_platform_key m next r a =
      if is_some r.origin
      then reject forbidden a
      else resolve_key (client_ip r.peer) m
          (λ found b.
            if not (role_beq found.role platform)
            then reject forbidden b
            else next (with_key found r) (touch m found b))
          r a

  unfoldable pub require_dictionary_admin : (String → Option IpAddr) → Moment → Next → Next
  require_dictionary_admin parse_ip m next r a =
      let ip =
        resolved_client_ip parse_ip (client_ip r.peer) a.trusted_proxies
          (text_of r.x_forwarded_for) in
      if is_some r.origin
      then reject forbidden a
      else resolve_key ip m
          (λ found b.
            if not (role_beq found.role platform)
            then reject forbidden b
            else if outside_cidrs ip b
            then reject forbidden b
            else next (with_key found r) (touch m found b))
          r a

-- The layers behind a key. Without one, and on a tenant's route without a tenant, `expect` panics.
unfoldable pub require_admin : Next → Next
require_admin next r a = elim r.key_record [
  | none ↦ panic "require_admin must be layered after require_active_key"
  | some k ↦ if not (role_beq k.role admin) then reject forbidden a else next r a
]

-- The tenant of the key that `require_active_key` found.
abbrev pub with_tenant : (String → Answer) → Option KeyRecord → Answer
with_tenant f none = panic "must be layered after require_active_key"
with_tenant f (some k) = elim k.tenant_id [
  | none ↦ panic "runs only on tenant-scoped routes"
  | some tenant_id ↦ f tenant_id
]

abbrev pub bind_origin : Next → Request → AppState → Option (Option String) → Answer
bind_origin next r a none = next r a
bind_origin next r a (some none) = reject forbidden a
bind_origin next r a (some (some origin)) =
    with_tenant
      (λ tenant_id.
        if not (tenant_owns_origin tenant_id origin a.store) then reject forbidden a else next r a)
      r.key_record

unfoldable pub require_origin_binding : Next → Next
require_origin_binding next r a = bind_origin next r a r.origin

-- A tenant that is not in the cache counts as not suspended here.
abbrev pub suspended : Option TenantInfo → Bool
suspended none = false
suspended (some t) = is_some t.suspended_at

unfoldable pub require_active_tenant : Next → Next
require_active_tenant next r a =
    with_tenant
      (λ tenant_id.
        if suspended (get_tenant tenant_id a.store) then reject forbidden a else next r a)
      r.key_record

abbrev pub with_scope : UsageScope → Request → Request
with_scope scope r = record r { usage_scope = some scope }

abbrev pub scope_origin : Next → String → Request → AppState → Option (Option String) → Answer
scope_origin next tenant_id r a none = next (with_scope (UsageScope.tenant tenant_id) r) a
scope_origin next tenant_id r a (some none) = reject forbidden a
scope_origin next tenant_id r a (some (some origin)) =
    if not (tenant_owns_origin tenant_id origin a.store)
    then reject forbidden a
    else next (with_scope (UsageScope.tenant tenant_id) r) a

abbrev pub scope_tenant : Next → String → Request → AppState → Option TenantInfo → Answer
scope_tenant next tenant_id r a none = reject forbidden a
scope_tenant next tenant_id r a (some t) =
    if is_some t.suspended_at then reject forbidden a else scope_origin next tenant_id r a r.origin

abbrev pub scope_admin : Next → Request → AppState → Option String → Answer
scope_admin next r a none = reject forbidden a
scope_admin next r a (some tenant_id) =
    scope_tenant next tenant_id r a (get_tenant tenant_id a.store)

abbrev pub scope_role : Next → Request → AppState → KeyRecord → Role → Answer
scope_role next r a k standard = reject forbidden a
scope_role next r a k platform =
    if is_some r.origin then reject forbidden a else next (with_scope UsageScope.platform r) a
scope_role next r a k admin = scope_admin next r a k.tenant_id

unfoldable pub require_usage_scope : Next → Next
require_usage_scope next r a = elim r.key_record [
  | none ↦ panic "require_usage_scope must be layered after require_active_key"
  | some k ↦ scope_role next r a k k.role
]

abbrev pub after_quota : Next → Request → AppState → Bool × Store → Answer
after_quota next r a (false, s) = reject quota_exceeded (record a { store = s })
after_quota next r a (true, s) = next r (record a { store = s })

unfoldable pub require_quota : Next → Next
require_quota next r a =
    with_tenant (λ tenant_id. after_quota next r a (try_consume_quota tenant_id a.store))
      r.key_record

abbrev or_text : String → Option String → String
or_text d none = d
or_text d (some s) = s

abbrev pub slug_of : Response → String
slug_of resp = if ltb resp.status 400 then "" else or_text "internal-error" resp.slug

abbrev pub sample_of : Moment → String → Response → Sample
sample_of m tenant_id resp = record {
  day = m.day;
  tenant_id = tenant_id;
  language = or_text "unknown" resp.language;
  status = resp.status;
  error_slug = slug_of resp;
  latency = m.elapsed;
}

abbrev pub recorded : Moment → String → Answer → Answer
recorded m tenant_id (panic e) = panic e
recorded m tenant_id (reply resp a) =
    reply resp (record a { usage = record_sample (sample_of m tenant_id resp) a.usage })

unfoldable pub record_usage : Moment → Next → Next
record_usage m next r a = with_tenant (λ tenant_id. recorded m tenant_id (next r a)) r.key_record

-- The stacks of `build_app`; the first layer that is named runs first.
module _ (sha256 : String → List ℕ) where
  unfoldable pub protected_spellcheck : Moment → Next → Next
  protected_spellcheck m next =
      require_active_key sha256 m
        (require_active_tenant (require_origin_binding (require_quota (record_usage m next))))

  -- `/api-keys*` and `/tenant/origins*`.
  unfoldable pub admin_routes : Moment → Next → Next
  admin_routes m next =
      require_active_key sha256 m
        (require_active_tenant (require_origin_binding (require_admin next)))

  unfoldable pub tenant_self_get : Moment → Next → Next
  tenant_self_get m next =
      require_active_key sha256 m (require_active_tenant (require_origin_binding next))

  unfoldable pub usage_routes : Moment → Next → Next
  usage_routes m next = require_active_key sha256 m (require_usage_scope next)
