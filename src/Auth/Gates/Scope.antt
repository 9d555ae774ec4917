-- ===== src/Auth/Gates/Scope.antt =====
-- src/auth.rs: whose usage a request may read.
use rustspell_server.Base.{
  String, ◌≡◌, refl, sym, subst, ◌⊎◌, inl, inr, false, Option, none, some, Bool-cases, Option-cases,
  is_some,
}
use rustspell_server.Error.{forbidden}
use rustspell_server.Store.Data.{Role, platform, admin, standard, KeyRecord, Store, TenantInfo}
use rustspell_server.Store.Tenants.{get_tenant}
use rustspell_server.Store.Origins.{tenant_owns_origin}
use rustspell_server.Auth.Request.{UsageScope, Request, AppState, Answer, Next, reject}
use rustspell_server.Auth.Gates.{
  with_scope, scope_origin, scope_tenant, scope_admin, scope_role, require_usage_scope,
}
use rustspell_server.Auth.Gates.Layers.{OriginIsOwned}

-- What the key `k` may read: a platform key all, and only without an `Origin`; an admin its own
-- tenant's, where that is known and not suspended and the origin, if any, is its own; others nothing.
abbrev pub MayRead : KeyRecord → Request → Store → UsageScope → Type 0
MayRead k r s UsageScope.platform = (k.role ≡ platform) × (is_some r.origin ≡ false)
MayRead k r s (UsageScope.tenant tenant_id) =
    (k.role ≡ admin)
    × (k.tenant_id ≡ some tenant_id)
    × ((t : TenantInfo) × (get_tenant tenant_id s ≡ some t) × (t.suspended_at ≡ none))
    × OriginIsOwned tenant_id r.origin s

module _ (next : Next) (r : Request) (a : AppState) (k : KeyRecord) where
  abbrev pub Scoped : Answer → Type 0
  Scoped x =
      (x ≡ reject forbidden a)
      ⊎ ((scope : UsageScope) × MayRead k r a.store scope × (x ≡ next (with_scope scope r) a))

  module _ (tenant_id : String) (is_admin : k.role ≡ admin)
      (at : k.tenant_id ≡ some tenant_id) where
    scope_origin-Scoped :
        (t : TenantInfo) (o : Option (Option String))
        → get_tenant tenant_id a.store ≡ some t
        → t.suspended_at ≡ none
        → r.origin ≡ o
        → Scoped (scope_origin next tenant_id r a o)
    scope_origin-Scoped t none e live same = inr (
      UsageScope.tenant tenant_id,
      (is_admin, at, (t, e, live), subst (λ o. OriginIsOwned tenant_id o a.store) (sym same) tt),
      refl,
    )
    scope_origin-Scoped t (some none) e live same = inl refl
    scope_origin-Scoped t (some (some origin)) e live same =
        elim (Bool-cases (tenant_owns_origin tenant_id origin a.store)) [
          | inl own ↦ inr (
            UsageScope.tenant tenant_id,
            (
              is_admin,
              at,
              (t, e, live),
              subst (λ o. OriginIsOwned tenant_id o a.store) (sym same) own,
            ),
            rw own refl,
          )
          | inr other ↦ inl (rw other refl)
        ]

    scope_tenant-Scoped :
        (o : Option TenantInfo)
        → get_tenant tenant_id a.store ≡ o
        → Scoped (scope_tenant next tenant_id r a o)
    scope_tenant-Scoped none e = inl refl
    scope_tenant-Scoped (some t) e = elim (Option-cases t.suspended_at) [
      | inl live ↦
          let f : scope_tenant next tenant_id r a (some t)
              ≡ scope_origin next tenant_id r a r.origin =
            simp (live) refl in
          subst Scoped (sym f) (scope_origin-Scoped t r.origin e live refl)
      | inr (since, out) ↦ inl (simp (out) refl)
    ]

  scope_admin-Scoped :
      (o : Option String) → k.role ≡ admin → k.tenant_id ≡ o → Scoped (scope_admin next r a o)
  scope_admin-Scoped none is_admin at = inl refl
  scope_admin-Scoped (some tenant_id) is_admin at =
      scope_tenant-Scoped tenant_id is_admin at (get_tenant tenant_id a.store) refl

  scope_role-Scoped : (role : Role) → k.role ≡ role → Scoped (scope_role next r a k role)
  scope_role-Scoped standard e = inl refl
  scope_role-Scoped platform e = elim (Bool-cases (is_some r.origin)) [
    | inl browser ↦ inl (rw browser refl)
    | inr server ↦ inr (UsageScope.platform, (e, server), rw server refl)
  ]
  scope_role-Scoped admin e = scope_admin-Scoped k.tenant_id e refl

  -- A request with the key `k` is refused, with nothing changed, or it is handed on with a scope
  -- that this key may read: everything for a platform key without an `Origin`, and its own tenant
  -- for an admin key, where that tenant is known and not suspended and the origin, if any, is its
  -- own.
  pub require_usage_scope-Scoped : r.key_record ≡ some k → Scoped (require_usage_scope next r a)
  unfolding require_usage_scope
  require_usage_scope-Scoped found =
      let e : require_usage_scope next r a ≡ scope_role next r a k k.role =
        simp (found, require_usage_scope) refl in
      subst Scoped (sym e) (scope_role-Scoped k.role refl)
