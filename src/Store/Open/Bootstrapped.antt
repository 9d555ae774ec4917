-- ===== src/Store/Open/Bootstrapped.antt =====
-- src/store.rs: a store that `open` gives back has an active platform key.
use mathlib.Core.Option.{some-injective}
use rustspell_server.Base.{
  ℕ, ◌^◌, ◌<◌, String, ◌≡◌, refl, subst, inl, inr, true, Bool-cases, Option, none, some, List,
  option_eq, string_eq, All,
}
use rustspell_server.Base.Dict.{any-lookup}
use rustspell_server.Store.Data.{
  platform, is_active, CreatedApiKey, Db, Store, Env, Outcome, ok, err, panic, ◌>>=◌, return,
}
use rustspell_server.Store.After.{After}
use rustspell_server.Store.Keys.{
  hash_key, has_active_platform_key, create_key_internal, authenticate,
}
use rustspell_server.Store.Keys.Bootstrap.{none_named}
use rustspell_server.Store.Keys.Lookup.{IsUnique}
use rustspell_server.Store.Keys.Invariant.{Inv, IsSane, create_key_internal-Inv}
use rustspell_server.Store.Keys.Lifecycle.{
  IsCreated, create_key_internal-IsCreated, create_key_internal-authenticate,
}
use rustspell_server.Store.Open.{
  DbConfig, database_url, max_connections, reload_caches, unloaded, load_from, open_internal,
  after_reload, bootstrap, finish, bootstrapped, open_store,
}
use rustspell_server.Store.Open.Reload.{reload_caches-Inv}

-- Unique ids and hashes, and no negative time of revocation.
abbrev pub IsSound : Option Db → Type 0
IsSound none = Unit
IsSound (some db) = IsUnique db.api_keys × All IsSane db.api_keys

-- The cache of keys of a loaded store agrees with a sound table.
pub load_from-Inv :
    (env : Env) (o : Option Db) (s : Store) → IsSound o → load_from env o ≡ some s → Inv s
load_from-Inv env none s w e = absurd (cc)
load_from-Inv env (some db) s w e = loaded (reload_caches env (unloaded db)) refl
  where
    loaded : (o : Outcome (Unit {0})) → reload_caches env (unloaded db) ≡ o → Inv s
    loaded (ok _ t) p =
        subst Inv (some-injective _ _ (rw (p, load_from) at e))
          (reload_caches-Inv env db t w.0 p w.1)
    loaded (err _ _) p = absurd (cc (rw (p, load_from) at e))
    loaded (panic _) p = absurd (cc (rw (p, load_from) at e))

module _ (sha256 : String → List ℕ) where
  abbrev Accepts : Option CreatedApiKey → Store → Type 0
  Accepts none t = Unit
  Accepts (some created) t =
      (later : Env) → authenticate sha256 later created.raw_key t ≡ (some created.key_record, t)

  pub record IsOpen (now : ℕ) (t : Store) (created : Option CreatedApiKey) : Type 0 where
    pub agrees : Inv t
    pub has_platform : has_active_platform_key now t ≡ true
    pub accepts : Accepts created t

  abbrev OpenResult : ℕ → Option (Store × Option CreatedApiKey) → Type 0
  OpenResult now none = Unit
  OpenResult now (some (t, created)) = IsOpen now t created

  -- A platform key without an end is active at every time.
  created-platform :
      (now : ℕ) (s t : Store) (created : CreatedApiKey)
      → IsCreated sha256 none platform none s created t
      → has_active_platform_key now t ≡ true
  unfolding has_active_platform_key is_active
  created-platform now s t created c =
      any-lookup _ (hash_key sha256 created.raw_key) t.keys created.key_record c.entry_is
        (rw (c.role_is, c.unrevoked, c.expires) refl)

  created-IsOpen :
      (env : Env) (s : Store) (o : Outcome CreatedApiKey)
      → env.now < 2 ^ 63
      → Inv s
      → create_key_internal sha256 (after_reload env) none "bootstrap" platform none s ≡ o
      → OpenResult env.now (finish sha256 (((λ _. o) >>= (λ created. return (some created))) s))
  created-IsOpen env s (ok created t) fits v e = record {
    agrees = subst (After Inv) e (
        create_key_internal-Inv sha256 (after_reload env) none "bootstrap" platform none s fits tt
          none_named v);
    has_platform = created-platform env.now s t created (
        create_key_internal-IsCreated sha256 (after_reload env) none "bootstrap" platform none s t
          created e);
    accepts = λ later.
        create_key_internal-authenticate sha256 (after_reload env) later none "bootstrap" platform
          none s t created e refl;
  }
  created-IsOpen env s (err m t) fits v e = tt
  created-IsOpen env s (panic m) fits v e = tt

  bootstrap-IsOpen :
      (env : Env) (s : Store)
      → env.now < 2 ^ 63
      → Inv s
      → OpenResult env.now (finish sha256 (bootstrap sha256 env s))
  unfolding bootstrap
  bootstrap-IsOpen env s fits v = elim (Bool-cases (has_active_platform_key env.now s)) [
    | inl there ↦ rw (there, bootstrap) (record { agrees = v; has_platform = there; accepts = tt })
    | inr gone ↦ rw (gone, bootstrap) (created-IsOpen env s _ fits v refl)
  ]

  load_from-IsOpen :
      (env : Env) (db : Option Db)
      → env.now < 2 ^ 63
      → IsSound db
      → OpenResult env.now (bootstrapped sha256 env (load_from env db))
  load_from-IsOpen env none fits w = tt
  load_from-IsOpen env (some db) fits w = loaded (reload_caches env (unloaded db)) refl
    where
      loaded :
          (o : Outcome (Unit {0}))
          → reload_caches env (unloaded db) ≡ o
          → OpenResult env.now (bootstrapped sha256 env (load_from env (some db)))
      loaded (ok _ s) e =
          rw (e, OpenResult) (bootstrap-IsOpen env s fits (reload_caches-Inv env db s w.0 e w.1))
      loaded (err _ _) e = rw (e, OpenResult) tt
      loaded (panic _) e = rw (e, OpenResult) tt

  -- Where the keys of the database have unique ids and hashes and no negative revocation time, and
  -- the time fits the columns: a store that `open` gives back has an active platform key at that time
  -- and a cache of keys that agrees with the table, and accepts the raw value of the key that `open`
  -- made, if it made one, at every later time.
  pub open_store-IsOpen :
      (connect : String → ℕ → Option Db) (env : Env) (c : DbConfig) (t : Store)
      (created : Option CreatedApiKey)
      → env.now < 2 ^ 63
      → IsSound (connect (database_url c) (max_connections (database_url c)))
      → open_store sha256 connect env c ≡ some (t, created)
      → IsOpen env.now t created
  unfolding open_store open_internal
  open_store-IsOpen connect env c t created fits w e =
      subst (OpenResult env.now) e (load_from-IsOpen env _ fits w)
