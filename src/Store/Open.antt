-- ===== src/Store/Open.antt =====
-- src/store.rs, the start: the URL of the database, the caches as the tables fill them, and the
-- bootstrap key. `connect` stands for `sqlx` and the schema: the tables at a URL, once they exist.
pub mod Reload
pub mod Restart
pub mod Bootstrapped
use rustspell_server.Base.{
  ℕ, ◌+◌, String, ◌<>◌, Bool, true, false, not, Option, none, some, List, [], ◌∷◌, if◌then◌else◌,
  string_eq,
}
use rustspell_server.Base.Text.{starts_with}
use rustspell_server.Base.Dict.{Dict, insert}
use rustspell_server.Store.Data.{
  platform, KeyRecord, CreatedApiKey, ApiKeyRow, TenantInfo, TenantRow, OriginInfo, OriginRow,
  DictionaryInfo, DictionaryRow, Db, Store, Env, Outcome, ok, err, panic, M, ◌>>=◌, ◌>>◌, return,
  modify_store, fetch, key_record_from_row, tenant_info_from_row, origin_info_from_row,
  dictionary_info_from_row,
}
use rustspell_server.Store.Keys.{has_active_platform_key, create_key_internal}
use rustspell_server.Store.Origins.{set_insert, add_owned}

-- The rows of the keys go into the cache one by one; the first whose role is unknown ends the start.
unfoldable pub reload_keys : List ApiKeyRow → M (Unit {0})
reload_keys [] s = ok tt s
reload_keys (row ∷ rows) s = elim (key_record_from_row row) [
  | none ↦ err "invalid role in database" s
  | some k ↦ reload_keys rows (record s { keys = insert k.key_hash k s.keys })
]

unfoldable pub reload_tenants : List TenantRow → Dict String TenantInfo → Dict String TenantInfo
reload_tenants [] tenants = tenants
reload_tenants (row ∷ rows) tenants =
    reload_tenants rows (insert row.id (tenant_info_from_row row) tenants)

unfoldable pub reload_origins : List OriginRow → Store → Store
reload_origins [] s = s
reload_origins (row ∷ rows) s = reload_origins rows (record s {
  origins_any = set_insert row.origin s.origins_any;
  origins_by_tenant = add_owned row.tenant_id (origin_info_from_row row) s.origins_by_tenant;
})

unfoldable pub reload_dictionaries :
    List DictionaryRow → Dict String DictionaryInfo → Dict String DictionaryInfo
reload_dictionaries [] dictionaries = dictionaries
reload_dictionaries (row ∷ rows) dictionaries =
    reload_dictionaries rows (insert row.code (dictionary_info_from_row row) dictionaries)

-- The three tables whose rows always decode.
abbrev pub reload_rest : Env → M (Unit {0})
reload_rest env = do
  tenant_rows ← fetch (env.sql_ok 1) (λ db. db.tenants)
  modify_store (λ s. record s { tenants = reload_tenants tenant_rows s.tenants })
  origin_rows ← fetch (env.sql_ok 2) (λ db. db.tenant_origins)
  modify_store (reload_origins origin_rows)
  dictionary_rows ← fetch (env.sql_ok 3) (λ db. db.dictionaries)
  modify_store (λ s. record s { dictionaries = reload_dictionaries dictionary_rows s.dictionaries })

unfoldable pub reload_caches : Env → M (Unit {0})
reload_caches env = do
  key_rows ← fetch (env.sql_ok 0) (λ db. db.api_keys)
  reload_keys key_rows
  reload_rest env

-- The part of the configuration that the store reads, the path as it is displayed.
pub record DbConfig : Type 0 where
  pub db_url : Option String
  pub db_path : String

abbrev pub database_url : DbConfig → String
database_url c = elim c.db_url [
  | some pg_url ↦ pg_url
  | none ↦ "sqlite://" <> (c.db_path <> "?mode=rwc")
]

abbrev pub is_sqlite : String → Bool
is_sqlite url = not (starts_with "postgres" url)

abbrev pub max_connections : String → ℕ
max_connections url = if is_sqlite url then 1 else 10

-- A store whose caches are still empty.
abbrev pub unloaded : Db → Store
unloaded db = record {
  db = db;
  pending = [];
  keys = [];
  tenants = [];
  origins_any = [];
  origins_by_tenant = [];
  dictionaries = [];
}

abbrev pub load_from : Env → Option Db → Option Store
load_from env none = none
load_from env (some db) = elim (reload_caches env (unloaded db)) [
  | ok _ s ↦ some s
  | err _ _ ↦ none
  | panic _ ↦ none
]

module _ (connect : String → ℕ → Option Db) where
  unfoldable pub open_internal : Env → DbConfig → Option Store
  open_internal env c = load_from env (connect (database_url c) (max_connections (database_url c)))

  unfoldable pub open_for_cli : Env → DbConfig → Option Store
  open_for_cli env c = open_internal env c

-- The bootstrap key is made where no active platform key is there. Its statement is the call's fifth.
abbrev pub after_reload : Env → Env
after_reload env = record env { sql_ok = λ n. env.sql_ok (n + 4) }

module _ (sha256 : String → List ℕ) where
  abbrev pub new_bootstrap : Env → M (Option CreatedApiKey)
  new_bootstrap env = do
    created ← create_key_internal sha256 (after_reload env) none "bootstrap" platform none
    return (some created)

  unfoldable pub bootstrap : Env → M (Option CreatedApiKey)
  bootstrap env s = if has_active_platform_key env.now s then ok none s else new_bootstrap env s

  abbrev pub finish : Outcome (Option CreatedApiKey) → Option (Store × Option CreatedApiKey)
  finish (ok created s) = some (s, created)
  finish (err _ _) = none
  finish (panic _) = none

  abbrev pub bootstrapped : Env → Option Store → Option (Store × Option CreatedApiKey)
  bootstrapped env none = none
  bootstrapped env (some s) = finish (bootstrap env s)

  unfoldable pub open_store :
      (String → ℕ → Option Db) → Env → DbConfig → Option (Store × Option CreatedApiKey)
  open_store connect env c = bootstrapped env (open_internal connect env c)
