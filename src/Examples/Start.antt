-- ===== src/Examples/Start.antt =====
-- src/store.rs, the start, at concrete inputs: a first start, which makes the key "a", and a second.
use rustspell_server.Base.{ℕ, String, ◌≡◌, refl, Option, none, some, arith, string_eq, All}
use rustspell_server.Base.Dict.{option_map, insert}
use rustspell_server.Store.Data.{platform, as_str, parse_role, Db, Store, ok}
use rustspell_server.Store.Keys.{
  hash_key, generate_raw_key, insert_api_key, api_key_row, create_key_internal, authenticate,
  has_active_platform_key,
}
use rustspell_server.Store.Keys.Invariant.{forget}
use rustspell_server.Store.Open.{
  DbConfig, database_url, max_connections, reload_caches, reload_keys, reload_tenants,
  reload_origins, reload_dictionaries, unloaded, open_internal, bootstrap, open_store,
}
use rustspell_server.Store.Open.Reload.{Decodes}
use rustspell_server.Store.Open.Restart.{admits, authenticate-admits, reload_caches-authenticate}
use rustspell_server.Store.Open.Bootstrapped.{IsOpen, open_store-IsOpen}
use rustspell_server.Examples.Data.{empty_store, codes, env_at}
use rustspell_server.Examples.Keys.{created_a, store_a, store_a-Inv}

abbrev local : DbConfig
local = record { db_url = none; db_path = "data/rustspell.db" }

url_is : database_url local ≡ "sqlite://data/rustspell.db?mode=rwc"
url_is = refl

pool_is : max_connections (database_url local) ≡ 1
pool_is = refl

postgres_pool_is : max_connections "postgres://db/rustspell" ≡ 10
postgres_pool_is = refl

abbrev connect : String → ℕ → Option Db
connect url n = some empty_store.db

first_start : open_store codes connect (env_at 100 "a") local ≡ some (store_a, some created_a)
unfolding open_store open_internal reload_caches reload_keys reload_tenants reload_origins
    reload_dictionaries bootstrap has_active_platform_key create_key_internal hash_key
    generate_raw_key insert_api_key api_key_row insert as_str
first_start = refl

open_store-IsOpen_example : IsOpen codes 100 store_a (some created_a)
open_store-IsOpen_example =
    open_store-IsOpen codes connect (env_at 100 "a") local store_a (some created_a) (omega arith)
      (tt, tt) first_start

authenticate-admits_example :
    option_map forget (authenticate codes (env_at 200 "z") "rsk_aa" store_a).0
    ≡ option_map forget (admits codes (env_at 200 "z") "rsk_aa" store_a.db)
authenticate-admits_example =
    authenticate-admits codes (env_at 200 "z") "rsk_aa" store_a store_a-Inv refl

roles_known : All Decodes store_a.db.api_keys
unfolding parse_role
roles_known = ((platform, refl), tt)

reload_caches-authenticate_example :
    (t : Store) × (reload_caches (env_at 150 "y") (unloaded store_a.db) ≡ ok tt t)
    × (option_map forget (authenticate codes (env_at 200 "z") "rsk_aa" t).0
        ≡ option_map forget (authenticate codes (env_at 200 "z") "rsk_aa" store_a).0)
reload_caches-authenticate_example =
    reload_caches-authenticate codes (env_at 150 "y") (env_at 200 "z") "rsk_aa" store_a store_a-Inv
      roles_known (λ n. refl) refl
