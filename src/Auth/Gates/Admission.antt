-- ===== src/Auth/Gates/Admission.antt =====
-- src/auth.rs, src/handlers.rs: which requests reach a spell check, and what each of them costs.
use rustspell_server.Base.{
  ℕ, String, ◌≡◌, refl, sym, ap, subst, ◌∙◌, inl, inr, true, false, Option, none, some, List,
  Bool-cases, Option-cases, find, ◌==◌, string_eq,
}
use rustspell_server.Base.Dict.{values, lookup}
use rustspell_server.Error.{AppError}
use rustspell_server.Store.Data.{KeyRecord, Store, Env, is_active}
use rustspell_server.Store.Keys.{
  hash_key, answer, filter_active, authenticate_miss, authenticate, touch_last_used,
}
use rustspell_server.Store.Tenants.{get_tenant, try_consume_quota}
use rustspell_server.Store.Origins.{map_has, tenant_owns_origin}
use rustspell_server.Auth.ClientIp.{client_ip}
use rustspell_server.Auth.Request.{Request, AppState, Moment, Answer, panic, Next, reject}
use rustspell_server.Auth.Gates.{
  text_of, fail_from, suspended, with_key, touch, recorded, require_active_key,
  require_active_tenant, require_origin_binding, require_quota, record_usage, protected_spellcheck,
}
use rustspell_server.Auth.Gates.Resolution.{
  Resolution, locked, missing, refused, found, resolve_key-Resolution,
}
use rustspell_server.Auth.Gates.Layers.{
  OriginIsOwned, with_tenant-none, require_active_tenant-cases, require_origin_binding-cases,
  require_quota-cases, record_usage-eq,
}

-- What the gates read of a store besides its keys.
abbrev pub SameTenants : Store → Store → Type 0
SameTenants s t = (t.tenants ≡ s.tenants) × (t.origins_by_tenant ≡ s.origins_by_tenant)

suspended-same :
    (id : String) (s t : Store)
    → SameTenants s t
    → suspended (get_tenant id t) ≡ false
    → suspended (get_tenant id s) ≡ false
unfolding get_tenant
suspended-same id s t same e = ap (λ ts. suspended (lookup id ts)) (sym same.0) ∙ e

OriginIsOwned-same :
    (id : String) (o : Option (Option String)) (s t : Store)
    → SameTenants s t
    → OriginIsOwned id o t
    → OriginIsOwned id o s
unfolding tenant_owns_origin
OriginIsOwned-same id none s t same own = own
OriginIsOwned-same id (some none) s t same own = own
OriginIsOwned-same id (some (some origin)) s t same own =
    ap (λ by. map_has origin (lookup id by)) (sym same.1) ∙ own

touch_last_used-SameTenants :
    (env : Env) (id : String) (s : Store) → SameTenants s (touch_last_used env id s)
unfolding touch_last_used
touch_last_used-SameTenants env id s =
    elim (Option-cases (find (λ k. k.id == id) (values s.keys))) [
      | inl gone ↦ rw (gone, touch_last_used) (refl, refl)
      | inr (k, at) ↦ rw (at, touch_last_used) (refl, refl)
    ]

module _ (sha256 : String → List ℕ) where
  authenticate_miss-SameTenants :
      (env : Env) (hash : String) (s : Store) → SameTenants s (authenticate_miss env hash s).1
  unfolding authenticate_miss
  authenticate_miss-SameTenants env hash s = elim (Option-cases (answer env hash s)) [
    | inl gone ↦ rw (gone, authenticate_miss) (refl, refl)
    | inr (k, at) ↦ elim (Bool-cases (is_active k env.now)) [
      | inl live ↦ rw (at, live, authenticate_miss) (refl, refl)
      | inr dead ↦ rw (at, dead, authenticate_miss) (refl, refl)
    ]
  ]

  authenticate-SameTenants :
      (env : Env) (raw_key : String) (s : Store)
      → SameTenants s (authenticate sha256 env raw_key s).1
  unfolding authenticate
  authenticate-SameTenants env raw_key s =
      elim (Option-cases (filter_active env.now (lookup (hash_key sha256 raw_key) s.keys))) [
        | inl gone ↦
            rw (gone, authenticate) (authenticate_miss-SameTenants env (hash_key sha256 raw_key) s)
        | inr (k, at) ↦ rw (at, authenticate) (refl, refl)
      ]

  -- What a request to a spell check comes to, with the handler `next`.
  pub data Spellcheck (m : Moment) (next : Next) (r : Request) (a : AppState)
      : Answer → Type 0 where
    turned_away :
        (e : AppError) (b : AppState)
        → SameTenants a.store b.store
        → b.usage ≡ a.usage
        → Spellcheck m next r a (reject e b)
    admitted :
        (raw_key tenant_id : String) (k : KeyRecord) (s u : Store)
        → text_of r.x_api_key ≡ some raw_key
        → authenticate sha256 m.env raw_key a.store ≡ (some k, s)
        → k.tenant_id ≡ some tenant_id
        → suspended (get_tenant tenant_id a.store) ≡ false
        → OriginIsOwned tenant_id r.origin a.store
        → try_consume_quota tenant_id (touch_last_used m.env k.id s) ≡ (true, u)
        → Spellcheck m next r a
            (recorded m tenant_id (next (with_key k r) (record a { store = u })))
    no_tenant :
        (raw_key : String) (k : KeyRecord) (s : Store)
        → authenticate sha256 m.env raw_key a.store ≡ (some k, s)
        → k.tenant_id ≡ none
        → Spellcheck m next r a (panic "runs only on tenant-scoped routes")

  module _ (m : Moment) (next : Next) (r : Request) (a : AppState) where
    abbrev Goal : Answer → Type 0
    Goal = Spellcheck m next r a

    module _ (raw_key : String) (k : KeyRecord) (s : Store)
        (sent : text_of r.x_api_key ≡ some raw_key)
        (known : authenticate sha256 m.env raw_key a.store ≡ (some k, s)) where
      abbrev after_key : AppState
      after_key = record a { store = touch_last_used m.env k.id s }

      after_key-SameTenants : SameTenants a.store after_key.store
      after_key-SameTenants =
          let one =
            subst (λ p. SameTenants a.store p.1) known
              (authenticate-SameTenants m.env raw_key a.store) in
          let two = touch_last_used-SameTenants m.env k.id s in (two.0 ∙ one.0, two.1 ∙ one.1)

      -- Behind the key, the four layers of a request with a tenant.
      behind_key :
          (tenant_id : String)
          → k.tenant_id ≡ some tenant_id
          → Goal (
              require_active_tenant
                (require_origin_binding (require_quota (record_usage m next)))
                (with_key k r)
                after_key)
      behind_key tenant_id at =
          let r' = with_key k r in
          let b = after_key in
          let same = after_key-SameTenants in
          let last = record_usage m next in
          let third = require_quota last in
          let second = require_origin_binding third in
          elim (require_active_tenant-cases second r' b k tenant_id refl at) [
            | inl out ↦ subst Goal (sym out) (turned_away _ b same refl)
            | inr (live, e) ↦ elim (require_origin_binding-cases third r' b k tenant_id refl at) [
              | inl out ↦ subst Goal (sym (e ∙ out)) (turned_away _ b same refl)
              | inr (own, f) ↦ elim (require_quota-cases last r' b k tenant_id refl at) [
                | inl out ↦ subst Goal (sym (e ∙ f ∙ out)) (turned_away _ b same refl)
                | inr (u, took, g) ↦
                    subst Goal
                      (sym (
                        e
                        ∙ f
                        ∙ g
                        ∙ record_usage-eq next r' (record b { store = u }) k tenant_id refl at m))
                      (admitted raw_key tenant_id k s u sent known at
                        (suspended-same tenant_id a.store b.store same live)
                        (OriginIsOwned-same tenant_id r.origin a.store b.store same own) took)
              ]
            ]
          ]

      found-Spellcheck : Goal (
          require_active_tenant
            (require_origin_binding (require_quota (record_usage m next)))
            (with_key k r)
            after_key)
      unfolding require_active_tenant
      found-Spellcheck = elim (Option-cases k.tenant_id) [
        | inl alone ↦
            subst Goal (sym (with_tenant-none _ k alone)) (no_tenant raw_key k s known alone)
        | inr (tenant_id, at) ↦ behind_key tenant_id at
      ]

    Resolution-Spellcheck :
        (x : Answer)
        → Resolution sha256
            (client_ip r.peer)
            m
            (λ k b.
              require_active_tenant
                (require_origin_binding (require_quota (record_usage m next)))
                (with_key k r)
                (touch m k b))
            r
            a
            x
        → Goal x
    Resolution-Spellcheck x (locked n c) = turned_away _ a (refl, refl) refl
    Resolution-Spellcheck x (missing c t) =
        turned_away _ (fail_from (client_ip r.peer) m a) (refl, refl) refl
    Resolution-Spellcheck x (refused raw_key s c t e) =
        turned_away _ (fail_from (client_ip r.peer) m (record a { store = s }))
          (subst (λ p. SameTenants a.store p.1) e (authenticate-SameTenants m.env raw_key a.store))
          refl
    Resolution-Spellcheck x (found raw_key k s c t e) = found-Spellcheck raw_key k s t e

    -- A request to a spell check is turned away, with no tenant's quota used and nothing recorded;
    -- or it reaches the handler, and then it came with a key that the store let in, of a tenant
    -- that is not suspended, from an origin of that tenant if from any, it has taken one unit of
    -- the tenant's quota, and the handler's reply, if it replies, is recorded once; or, with a key
    -- that was let in but has no tenant, the server panics.
    pub protected_spellcheck-Spellcheck : Goal (protected_spellcheck sha256 m next r a)
    unfolding protected_spellcheck require_active_key
    protected_spellcheck-Spellcheck =
        Resolution-Spellcheck _ (resolve_key-Resolution sha256 _ m _ r a)
