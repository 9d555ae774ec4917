-- ===== src/Auth/Gates/Layers.antt =====
-- src/auth.rs: each layer behind the key either refuses a request or hands it on as it is.
use rustspell_server.Base.{
  String, ◌≡◌, refl, sym, ap, subst, ◌⊎◌, inl, inr, Bool, true, false, Option, none, some,
  Bool-cases, Option-cases, string_eq, ◌∙◌, ◌≢◌,
}
use rustspell_server.Base.Dict.{lookup}
use rustspell_server.Error.{forbidden, quota_exceeded}
use rustspell_server.Store.Data.{KeyRecord, Store}
use rustspell_server.Store.Tenants.{get_tenant, try_consume_quota, is_exhausted}
use rustspell_server.Store.Origins.{tenant_owns_origin}
use rustspell_server.Auth.Request.{Request, AppState, Moment, Answer, panic, Next, reject}
use rustspell_server.Auth.Gates.{
  suspended, with_tenant, after_quota, recorded, bind_origin, require_active_tenant,
  require_origin_binding, require_quota, record_usage,
}

-- An `Origin` header, where there is one, names an origin of the tenant.
abbrev pub OriginIsOwned : String → Option (Option String) → Store → Type 0
OriginIsOwned tenant_id none s = Unit
OriginIsOwned tenant_id (some none) s = ⊥
OriginIsOwned tenant_id (some (some origin)) s = tenant_owns_origin tenant_id origin s ≡ true

true≢false : true ≢ false
true≢false e = cc

refused-try_consume_quota :
    (id : String) (s u : Store) → try_consume_quota id s ≡ (false, u) → u ≡ s
unfolding try_consume_quota
refused-try_consume_quota id s u e = elim (Option-cases (lookup id s.tenants)) [
  | inl gone ↦
      let f : try_consume_quota id s ≡ (false, s) = rw (gone, try_consume_quota) refl in
      ap (λ p. p.1) (sym e ∙ f)
  | inr (t, at) ↦ elim (Bool-cases (is_exhausted t)) [
    | inl full ↦
        let f : try_consume_quota id s ≡ (false, s) = rw (at, full, try_consume_quota) refl in
        ap (λ p. p.1) (sym e ∙ f)
    | inr room ↦
        let f : (try_consume_quota id s).0 ≡ true = rw (at, room, try_consume_quota) in
        absurd (true≢false (sym f ∙ ap (λ p. p.0) e))
  ]
]

pub with_tenant-some :
    (f : String → Answer) (o : Option KeyRecord) (k : KeyRecord) (t : String)
    → o ≡ some k
    → k.tenant_id ≡ some t
    → with_tenant f o ≡ f t
with_tenant-some f o k t e at = subst (λ o. with_tenant f o ≡ f t) (sym e) (simp (at) refl)

pub with_tenant-none :
    (f : String → Answer) (k : KeyRecord)
    → k.tenant_id ≡ none
    → with_tenant f (some k) ≡ panic "runs only on tenant-scoped routes"
with_tenant-none f k alone = simp (alone) refl

module _ (next : Next) (r : Request) (a : AppState) (k : KeyRecord) (tenant_id : String)
    (found : r.key_record ≡ some k) (at : k.tenant_id ≡ some tenant_id) where
  pub require_active_tenant-cases :
      (require_active_tenant next r a ≡ reject forbidden a)
      ⊎ ((suspended (get_tenant tenant_id a.store) ≡ false)
          × (require_active_tenant next r a ≡ next r a))
  unfolding require_active_tenant
  require_active_tenant-cases = elim (Bool-cases (suspended (get_tenant tenant_id a.store))) [
    | inl out ↦ inl (with_tenant-some _ _ k tenant_id found at ∙ rw out refl)
    | inr live ↦ inr (live, with_tenant-some _ _ k tenant_id found at ∙ rw live refl)
  ]

  bind_origin-cases :
      (o : Option (Option String))
      → (bind_origin next r a o ≡ reject forbidden a)
        ⊎ (OriginIsOwned tenant_id o a.store × (bind_origin next r a o ≡ next r a))
  bind_origin-cases none = inr (tt, refl)
  bind_origin-cases (some none) = inl refl
  bind_origin-cases (some (some origin)) =
      elim (Bool-cases (tenant_owns_origin tenant_id origin a.store)) [
        | inl own ↦ inr (own, with_tenant-some _ _ k tenant_id found at ∙ rw own refl)
        | inr other ↦ inl (with_tenant-some _ _ k tenant_id found at ∙ rw other refl)
      ]

  pub require_origin_binding-cases :
      (require_origin_binding next r a ≡ reject forbidden a)
      ⊎ (OriginIsOwned tenant_id r.origin a.store × (require_origin_binding next r a ≡ next r a))
  unfolding require_origin_binding
  require_origin_binding-cases = bind_origin-cases r.origin

  after_quota-cases :
      (o : Bool × Store)
      → try_consume_quota tenant_id a.store ≡ o
      → (after_quota next r a o ≡ reject quota_exceeded a)
        ⊎ ((u : Store) × (try_consume_quota tenant_id a.store ≡ (true, u))
            × (after_quota next r a o ≡ next r (record a { store = u })))
  after_quota-cases (true, u) e = inr (u, e, refl)
  after_quota-cases (false, u) e = inl (
      ap (λ s. reject quota_exceeded (record a { store = s }))
        (refused-try_consume_quota tenant_id a.store u e))

  pub require_quota-cases :
      (require_quota next r a ≡ reject quota_exceeded a)
      ⊎ ((u : Store) × (try_consume_quota tenant_id a.store ≡ (true, u))
          × (require_quota next r a ≡ next r (record a { store = u })))
  unfolding require_quota
  require_quota-cases =
      let e =
        with_tenant-some (λ t. after_quota next r a (try_consume_quota t a.store)) _ k tenant_id
          found at in
      elim (after_quota-cases (try_consume_quota tenant_id a.store) refl) [
        | inl full ↦ inl (e ∙ full)
        | inr (u, took, next_is) ↦ inr (u, took, e ∙ next_is)
      ]

  pub record_usage-eq : (m : Moment) → record_usage m next r a ≡ recorded m tenant_id (next r a)
  unfolding record_usage
  record_usage-eq m = with_tenant-some _ _ k tenant_id found at
