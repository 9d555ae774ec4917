-- ===== src/Auth/Gates/Served.antt =====
-- src/auth.rs, src/handlers.rs: the requests that a spell check must not turn away.
use rustspell_server.Base.{ℕ, String, ◌≡◌, refl, ap, ◌∙◌, true, false, Option, none, some, List}
use rustspell_server.Store.Data.{KeyRecord, Store}
use rustspell_server.Store.Keys.{authenticate, touch_last_used}
use rustspell_server.Store.Tenants.{get_tenant, try_consume_quota}
use rustspell_server.Config.Cidr.{IpAddr}
use rustspell_server.Auth.RateLimiter.{clear, check}
use rustspell_server.Auth.ClientIp.{client_ip}
use rustspell_server.Auth.Request.{ip_eq, Request, AppState, Moment, Answer, Next}
use rustspell_server.Auth.Gates.{
  text_of, suspended, with_key, recorded, after_quota, bind_origin, resolve_key, with_raw_key,
  with_record, when_clear, require_active_key, require_active_tenant, require_origin_binding,
  require_quota, record_usage, protected_spellcheck,
}
use rustspell_server.Auth.Gates.Layers.{OriginIsOwned, with_tenant-some, record_usage-eq}

module _ (next : Next) (r : Request) (a : AppState) (k : KeyRecord) (tenant_id : String)
    (found : r.key_record ≡ some k) (at : k.tenant_id ≡ some tenant_id) where
  passes_tenant :
      suspended (get_tenant tenant_id a.store) ≡ false → require_active_tenant next r a ≡ next r a
  unfolding require_active_tenant
  passes_tenant live = with_tenant-some _ _ k tenant_id found at ∙ rw live refl

  passes_origin :
      (o : Option (Option String))
      → OriginIsOwned tenant_id o a.store
      → bind_origin next r a o ≡ next r a
  passes_origin none own = refl
  passes_origin (some none) own = absurd own
  passes_origin (some (some origin)) own = with_tenant-some _ _ k tenant_id found at ∙ rw own refl

  passes_quota :
      (u : Store)
      → try_consume_quota tenant_id a.store ≡ (true, u)
      → require_quota next r a ≡ next r (record a { store = u })
  unfolding require_quota
  passes_quota u took = with_tenant-some _ _ k tenant_id found at ∙ ap (after_quota next r a) took

module _ (sha256 : String → List ℕ) where
  resolve_key-found :
      (ip : IpAddr) (m : Moment) (kont : KeyRecord → AppState → Answer) (r : Request) (a : AppState)
      (raw_key : String) (k : KeyRecord) (s : Store)
      → check ip m.instant a.rate_limiter ≡ clear
      → text_of r.x_api_key ≡ some raw_key
      → authenticate sha256 m.env raw_key a.store ≡ (some k, s)
      → resolve_key sha256 ip m kont r a ≡ kont k (record a { store = s })
  unfolding resolve_key
  resolve_key-found ip m kont r a raw_key k s c t e =
      ap (λ v. when_clear sha256 ip m kont (text_of r.x_api_key) v a) c
      ∙ ap (λ o. with_raw_key sha256 ip m kont o a) t
      ∙ ap (λ o. with_record sha256 ip m kont o a) e

  -- A request from an address that is not locked out, with a key that the store lets in, whose tenant is
  -- not suspended, owns the origin, if any, and has quota left, reaches the handler: the reply is the
  -- handler's, one unit of quota is taken and the reply is recorded for the tenant.
  pub protected_spellcheck-served :
      (m : Moment) (next : Next) (r : Request) (a : AppState) (raw_key tenant_id : String)
      (k : KeyRecord) (s u : Store)
      → check (client_ip r.peer) m.instant a.rate_limiter ≡ clear
      → text_of r.x_api_key ≡ some raw_key
      → authenticate sha256 m.env raw_key a.store ≡ (some k, s)
      → k.tenant_id ≡ some tenant_id
      → suspended (get_tenant tenant_id (touch_last_used m.env k.id s)) ≡ false
      → OriginIsOwned tenant_id r.origin (touch_last_used m.env k.id s)
      → try_consume_quota tenant_id (touch_last_used m.env k.id s) ≡ (true, u)
      → protected_spellcheck sha256 m next r a
        ≡ recorded m tenant_id (next (with_key k r) (record a { store = u }))
  unfolding protected_spellcheck require_active_key require_origin_binding
  protected_spellcheck-served m next r a raw_key tenant_id k s u c t e at live own took =
      let r' = with_key k r in
      let b = record a { store = touch_last_used m.env k.id s } in
      let last = record_usage m next in
      let third = require_quota last in
      let second = require_origin_binding third in
      resolve_key-found (client_ip r.peer) m _ r a raw_key k s c t e
      ∙ passes_tenant second r' b k tenant_id refl at live
      ∙ passes_origin third r' b k tenant_id refl at r.origin own
      ∙ passes_quota last r' b k tenant_id refl at u took
      ∙ record_usage-eq next r' (record b { store = u }) k tenant_id refl at m
