-- ===== src/Store/Origins.antt =====
-- src/store.rs: the origins that tenants register for browsers.
pub mod Registry
pub mod Ownership
use rustspell_server.Base.{
  ℕ, String, ◌≡◌, Bool, true, false, not, ◌&&◌, ◌||◌, Option, none, some, List, [], ◌∷◌, ◌++◌, any,
  find, retain, if◌then◌else◌, is_some, ◌==◌, string_eq,
}
use rustspell_server.Base.Int.{ℤ, as_i64}
use rustspell_server.Base.Dict.{Dict, values, lookup, insert, remove, modify, contains_key}
use rustspell_server.Store.Data.{
  OriginInfo, OriginRow, Db, Store, Env, Outcome, ok, err, panic, M, ◌>>=◌, ◌>>◌, return,
  modify_store, execute, fetch,
}

-- `HashSet<String>`
abbrev pub member : String → List String → Bool
member o xs = any (λ x. x == o) xs

abbrev pub set_insert : String → List String → List String
set_insert o xs = if member o xs then xs else o ∷ xs

abbrev pub set_remove : String → List String → List String
set_remove o xs = retain (λ x. not (x == o)) xs

-- `INSERT INTO tenant_origins`: the primary key, the unique pair and the reference to the tenant.
unfoldable pub insert_origin : OriginRow → Db → Option Db
insert_origin row db =
    if any (λ r. r.id == row.id || (r.tenant_id == row.tenant_id && r.origin == row.origin))
      db.tenant_origins
    then none
    else if not (any (λ t. t.id == row.tenant_id) db.tenants)
    then none
    else some (record db { tenant_origins = row ∷ db.tenant_origins })

abbrev pub or_default {ℓ} : {V : Type ℓ} → Option (Dict String V) → Dict String V
or_default none = []
or_default (some m) = m

-- `entry(tenant_id).or_default().insert(origin, info)`
unfoldable pub add_owned :
    String
    → OriginInfo
    → Dict String (Dict String OriginInfo)
    → Dict String (Dict String OriginInfo)
add_owned tenant_id info by =
    insert tenant_id (insert info.origin info (or_default (lookup tenant_id by))) by

unfoldable pub register_origin : Env → String → String → M OriginInfo
register_origin env tenant_id origin = do
  let info : OriginInfo = record {
    id = env.new_id;
    tenant_id = tenant_id;
    origin = origin;
    created_at = env.now;
  }
  execute (env.sql_ok 0) (
      insert_origin (record {
        id = env.new_id;
        tenant_id = tenant_id;
        origin = origin;
        created_at = as_i64 env.now;
      }))
  modify_store (λ s. record s {
    origins_any = set_insert origin s.origins_any;
    origins_by_tenant = add_owned tenant_id info s.origins_by_tenant;
  })
  return info

unfoldable pub list_origins : String → Store → List OriginInfo
list_origins tenant_id s = values (or_default (lookup tenant_id s.origins_by_tenant))

-- Some tenant's map has the origin.
unfoldable pub still_owned : String → Dict String (Dict String OriginInfo) → Bool
still_owned origin by = any (λ m. contains_key origin m) (values by)

-- The cache's half of a revocation: the tenant's map first, and the set of all origins only where
-- no tenant has the origin any more.
unfoldable pub drop_owned : String → String → Store → Store
drop_owned tenant_id origin s =
    let by = modify tenant_id (remove origin) s.origins_by_tenant in
    record s {
      origins_by_tenant = by;
      origins_any =
          if not (still_owned origin by) then set_remove origin s.origins_any else s.origins_any;
    }

abbrev pub delete_origin : String → Db → Option Db
delete_origin id db =
    some (record db { tenant_origins = retain (λ r. not (r.id == id)) db.tenant_origins })

-- Two statements: the row of this id and tenant is read, and then the row of this id is deleted.
unfoldable pub revoke_found : Env → String → String → Option OriginRow → M Bool
revoke_found env tenant_id id none = return false
revoke_found env tenant_id id (some row) = do
  execute (env.sql_ok 1) (delete_origin id)
  modify_store (drop_owned tenant_id row.origin)
  return true

unfoldable pub revoke_origin : Env → String → String → M Bool
revoke_origin env tenant_id id = do
  row ←
      fetch (env.sql_ok 0)
        (λ db. find (λ r. r.id == id && r.tenant_id == tenant_id) db.tenant_origins)
  revoke_found env tenant_id id row

unfoldable pub is_registered_origin : String → Store → Bool
is_registered_origin origin s = member origin s.origins_any

abbrev pub map_has : String → Option (Dict String OriginInfo) → Bool
map_has origin none = false
map_has origin (some m) = contains_key origin m

unfoldable pub tenant_owns_origin : String → String → Store → Bool
tenant_owns_origin tenant_id origin s = map_has origin (lookup tenant_id s.origins_by_tenant)
