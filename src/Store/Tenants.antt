-- ===== src/Store/Tenants.antt =====
-- src/store.rs: the operations on tenants.
pub mod Quota
pub mod Updates
use rustspell_server.Base.{
  ℕ, ◌+◌, ◌%◌, ◌^◌, String, ◌≡◌, Bool, true, false, ◌&&◌, Option, none, some, List, [], ◌∷◌, ◌++◌,
  map, any, ltb, leb, if◌then◌else◌, is_some, ◌==◌, string_eq,
}
use rustspell_server.Base.Int.{ℤ, pos, as_i64}
use rustspell_server.Base.Dict.{Dict, values, lookup, insert, modify, contains_key}
use rustspell_server.Store.Data.{
  admin, TenantInfo, CreatedApiKey, TenantRow, Db, request_count, Store, Env, Outcome, ok, err,
  panic, M, ◌>>=◌, ◌>>◌, return, modify_store, execute, bind_opt,
}
use rustspell_server.Store.Keys.{create_key_internal}

-- `crate::config::DEFAULT_LANGUAGE`
abbrev pub default_language : String
default_language = "en_US"

abbrev pub unwrap_or {ℓ} : {A : Type ℓ} → Option A → A → A
unwrap_or none d = d
unwrap_or (some a) d = a

-- `INSERT INTO tenants`, under the primary key.
unfoldable pub insert_tenant : TenantRow → Db → Option Db
insert_tenant row db =
    if any (λ r. r.id == row.id) db.tenants
    then none
    else some (record db { tenants = db.tenants ++ (row ∷ []) })

unfoldable pub tenant_row : TenantInfo → TenantRow
tenant_row t = record {
  id = t.id;
  name = t.name;
  language = t.language;
  quota_limit = as_i64 t.quota_limit;
  request_count = as_i64 t.request_count;
  period_start = bind_opt t.period_start;
  period_end = bind_opt t.period_end;
  suspended_at = bind_opt t.suspended_at;
  created_at = as_i64 t.created_at;
}

-- `UPDATE tenants SET … WHERE id = ?`
abbrev pub update_rows : (TenantRow → TenantRow) → String → Db → Option Db
update_rows f id db =
    some (record db { tenants = map (λ (r : TenantRow). if r.id == id then f r else r) db.tenants })

unfoldable pub new_tenant :
    Env → String → Option String → Option ℕ → Option ℕ → Option ℕ → TenantInfo
new_tenant env name language quota_limit period_start period_end = record {
  id = env.new_id;
  name = name;
  language = unwrap_or language default_language;
  quota_limit = unwrap_or quota_limit 0;
  request_count = 0;
  period_start = period_start;
  period_end = period_end;
  suspended_at = none;
  created_at = env.now;
}

module _ (sha256 : String → List ℕ) where
  -- The tenant, and then its first key; the second call has its own clock and identifiers.
  unfoldable pub create_tenant :
      Env
      → Env
      → String
      → Option String
      → Option ℕ
      → Option ℕ
      → Option ℕ
      → M (TenantInfo × CreatedApiKey)
  create_tenant env key_env name language quota_limit period_start period_end = do
    let info = new_tenant env name language quota_limit period_start period_end
    execute (env.sql_ok 0) (insert_tenant (tenant_row info))
    modify_store (λ s. record s { tenants = insert info.id info s.tenants })
    admin_key ← create_key_internal sha256 key_env (some env.new_id) "default" admin none
    return (info, admin_key)

unfoldable pub list_tenants : Store → List TenantInfo
list_tenants s = values s.tenants

unfoldable pub get_tenant : String → Store → Option TenantInfo
get_tenant id s = lookup id s.tenants

-- The fields of a `PATCH`: an absent field stays; a period may also be cleared.
pub record TenantPatch : Type 0 where
  pub name : Option String
  pub language : Option String
  pub quota_limit : Option ℕ
  pub request_count : Option ℕ
  pub period_start : Option (Option ℕ)
  pub period_end : Option (Option ℕ)

unfoldable pub patched : TenantPatch → TenantInfo → TenantInfo
patched p t = record t {
  name = unwrap_or p.name t.name;
  language = unwrap_or p.language t.language;
  quota_limit = unwrap_or p.quota_limit t.quota_limit;
  request_count = unwrap_or p.request_count t.request_count;
  period_start = unwrap_or p.period_start t.period_start;
  period_end = unwrap_or p.period_end t.period_end;
}

abbrev pub patch_row : TenantInfo → TenantRow → TenantRow
patch_row t r = record r {
  name = t.name;
  language = t.language;
  quota_limit = as_i64 t.quota_limit;
  request_count = as_i64 t.request_count;
  period_start = bind_opt t.period_start;
  period_end = bind_opt t.period_end;
}

-- The cache is changed first: it stays changed where the statement then fails.
unfoldable pub update_tenant : Env → String → TenantPatch → M (Option TenantInfo)
update_tenant env id p s = elim (lookup id s.tenants) [
  | none ↦ ok none s
  | some t ↦
      (do
        modify_store (λ s'. record s' { tenants = modify id (patched p) s'.tenants })
        execute (env.sql_ok 0) (update_rows (patch_row (patched p t)) id)
        return (some (patched p t)))
        s
]

-- The test of the limit: zero means no limit.
abbrev pub is_exhausted : TenantInfo → Bool
is_exhausted t = ltb 0 t.quota_limit && leb t.quota_limit t.request_count

abbrev pub consumed : TenantInfo → TenantInfo
consumed t = record t { request_count = (t.request_count + 1) % 2 ^ 64 }

-- The check and the increment, in one critical section; the database follows in the background.
unfoldable pub try_consume_quota : String → Store → Bool × Store
try_consume_quota tenant_id s = elim (lookup tenant_id s.tenants) [
  | none ↦ (false, s)
  | some t ↦ if is_exhausted t then (false, s) else (
    true,
    record s {
      tenants = modify tenant_id consumed s.tenants;
      pending = s.pending ++ (request_count (consumed t).request_count tenant_id ∷ []);
    },
  )
]

abbrev pub suspend_row : Option ℕ → TenantRow → TenantRow
suspend_row at r = record r { suspended_at = bind_opt at }

unfoldable pub set_suspended : Env → String → Bool → M Bool
set_suspended env id suspended s =
    if contains_key id s.tenants
    then (do
      let at : Option ℕ = if suspended then some env.now else none
      execute (env.sql_ok 0) (update_rows (suspend_row at) id)
      modify_store (λ s'. record s' {
        tenants = modify id (λ (t : TenantInfo). record t { suspended_at = at }) s'.tenants;
      })
      return true)
        s
    else ok false s
