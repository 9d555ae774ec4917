-- ===== src/Store/Tenants/Updates.antt =====
-- src/store.rs: what creating, patching and suspending a tenant changes.
use rustspell_server.Base.{
  ℕ, String, ◌≡◌, refl, inl, inr, Bool, true, false, Option, none, some, List, if◌then◌else◌,
  Bool-cases, Option-cases, ◌==◌, string_eq, ==-refl,
}
use rustspell_server.Base.Dict.{option_map, lookup, insert, lookup-insert, lookup-modify}
use rustspell_server.Store.Data.{
  admin, TenantInfo, CreatedApiKey, Store, Env, Outcome, ok, err, panic, return,
}
use rustspell_server.Store.After.{After, execute-After, execute-eq-ok, bind-eq-ok, on_ok}
use rustspell_server.Store.Keys.{create_key_internal, authenticate}
use rustspell_server.Store.Keys.Lifecycle.{
  create_key_internal-IsCreated, create_key_internal-authenticate,
}
use rustspell_server.Store.Tenants.{
  new_tenant, create_tenant, get_tenant, TenantPatch, patched, update_tenant, set_suspended,
}

-- The tenants' cache after a change of one entry.
abbrev pub Changed : String → (TenantInfo → TenantInfo) → Store → Store → Type 0
Changed id f s t =
    (j : String)
    → lookup j t.tenants
      ≡ (if id == j then option_map f (lookup id s.tenants) else lookup j s.tenants)

unchanged :
    (id : String) (f : TenantInfo → TenantInfo) (s : Store)
    → lookup id s.tenants ≡ none
    → Changed id f s s
unchanged id f s e j = elim (Bool-cases (id == j)) [
  | inl hit ↦ rw (hit, e, ← (string_eq.test_iff id j).0 hit) e
  | inr miss ↦ rw miss refl
]

-- A patch changes the cached entry of its tenant, as the fields say, and no other; this also where
-- the statement fails. An unknown tenant changes nothing.
pub update_tenant-Changed :
    (env : Env) (id : String) (p : TenantPatch) (s : Store)
    → After (Changed id (patched p) s) (update_tenant env id p s)
unfolding update_tenant
update_tenant-Changed env id p s = elim (Option-cases (lookup id s.tenants)) [
  | inl e ↦ rw (e, update_tenant) (unchanged id (patched p) s e)
  | inr (t, e) ↦
      rw (e, update_tenant)
        (execute-After (Changed id (patched p) s) (env.sql_ok 0) _ _ _
          (λ j. lookup-modify id j (patched p) s.tenants)
          (λ db done j. lookup-modify id j (patched p) s.tenants))
]

abbrev pub suspended_as : Env → Bool → TenantInfo → TenantInfo
suspended_as env suspended t = record t { suspended_at = if suspended then some env.now else none }

-- What a suspension or a reactivation has done, by its outcome.
abbrev pub Suspends : Env → String → Bool → Store → Outcome Bool → Type 0
Suspends env id suspended s (ok true t) = Changed id (suspended_as env suspended) s t
Suspends env id suspended s (ok false t) = (lookup id s.tenants ≡ none) × (t ≡ s)
Suspends env id suspended s (err e t) = t ≡ s
Suspends env id suspended s (panic e) = ⊥

-- A suspension or reactivation that succeeds sets the mark of its tenant's entry and changes no
-- other; an unknown tenant or a failed statement changes nothing.
pub set_suspended-Suspends :
    (env : Env) (id : String) (suspended : Bool) (s : Store)
    → Suspends env id suspended s (set_suspended env id suspended s)
unfolding set_suspended
set_suspended-Suspends env id suspended s = elim (Option-cases (lookup id s.tenants)) [
  | inl e ↦ rw (e, set_suspended) (e, refl)
  | inr (t, e) ↦
      rw (e, set_suspended)
        (elim (Bool-cases (env.sql_ok 0)) [
          | inl reached ↦
              rw reached (λ j. lookup-modify id j (suspended_as env suspended) s.tenants)
          | inr failed ↦ rw failed refl
        ])
]

-- What a tenant was created as: its entry and an admin key of its own that lets its holder in.
pub record IsProvisioned (sha256 : String → List ℕ) (made : TenantInfo × CreatedApiKey) (t : Store)
    : Type 0 where
  pub entry : get_tenant made.0.id t ≡ some made.0
  pub unused : made.0.request_count ≡ 0
  pub owner : made.1.key_record.tenant_id ≡ some made.0.id
  pub is_admin : made.1.key_record.role ≡ admin
  pub lets_in :
      (later : Env) → authenticate sha256 later made.1.raw_key t ≡ (some made.1.key_record, t)

-- A creation that succeeds caches the tenant, with no requests counted, and returns an admin key of
-- that tenant, whose raw value the store that it leaves accepts at every time.
pub create_tenant-IsProvisioned :
    (sha256 : String → List ℕ) (env key_env : Env) (name : String) (language : Option String)
    (quota_limit period_start period_end : Option ℕ) (s t : Store)
    (made : TenantInfo × CreatedApiKey)
    → create_tenant sha256 env key_env name language quota_limit period_start period_end s
      ≡ ok made t
    → IsProvisioned sha256 made t
unfolding create_tenant get_tenant new_tenant
create_tenant-IsProvisioned sha256 env key_env name language quota_limit period_start period_end s t
      made e =
    let (db, done, rest) = execute-eq-ok (env.sql_ok 0) _ _ s made t e in
    let info = new_tenant env name language quota_limit period_start period_end in
    let (key, u, run, back) =
      bind-eq-ok (create_key_internal sha256 key_env (some env.new_id) "default" admin none)
        (λ k. return (info, k)) (record s { db = db; tenants = insert info.id info s.tenants }) made
        t rest in
    let new =
      create_key_internal-IsCreated sha256 key_env (some env.new_id) "default" admin none _ u key
        run in
    on_ok (IsProvisioned sha256) back (record {
      entry =
          rw new.tenants_stay
            (rw (lookup-insert info.id info.id info s.tenants, ==-refl info.id) refl);
      unused = refl;
      owner = new.owner;
      is_admin = new.role_is;
      lets_in = λ later.
          create_key_internal-authenticate sha256 key_env later (some env.new_id) "default" admin
            none _ u key run refl;
    })
