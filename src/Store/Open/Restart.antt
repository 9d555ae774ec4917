-- ===== src/Store/Open/Restart.antt =====
-- src/store.rs: the cache of keys implements the table, and a restart changes no answer.
use rustspell_server.Base.{
  ℕ, String, ◌≡◌, refl, ap, sym, ◌∙◌, inl, inr, true, Bool-cases, Option-cases, Option, none, some,
  List, arith, option_eq, string_eq, All,
}
use rustspell_server.Base.Dict.{option_map, lookup}
use rustspell_server.Store.Data.{KeyRecord, is_active, ApiKeyRow, Db, Store, Env, ok}
use rustspell_server.Store.Keys.{
  hash_key, load_key_by_hash, filter_active, authenticate, authenticate_miss,
}
use rustspell_server.Store.Keys.Lookup.{row_of}
use rustspell_server.Store.Keys.Invariant.{Inv, entry, forget, Agrees}
use rustspell_server.Store.Keys.Lifecycle.{filter_active-eq}
use rustspell_server.Store.Open.{reload_caches, unloaded}
use rustspell_server.Store.Open.Reload.{
  Decodes, reload_caches_total, reload_caches-Inv, reload_caches-db,
}

load_key_by_hash-Agrees :
    (h : String) (db : Db) (row : ApiKeyRow) (k : KeyRecord)
    → row_of h db.api_keys ≡ some row
    → Agrees k row
    → option_map forget (load_key_by_hash h db) ≡ some (forget k)
unfolding load_key_by_hash
load_key_by_hash-Agrees h db row k e a = rw (e, load_key_by_hash) a

forget-filter_active :
    (now : ℕ) (k : KeyRecord)
    → is_active k now ≡ true
    → filter_active now (some (forget k)) ≡ some (forget k)
unfolding is_active
forget-filter_active now k live = ground arith

module _ (sha256 : String → List ℕ) where
  -- What the table of keys alone lets in: the record of the text's hash, where it is active.
  pub admits : Env → String → Db → Option KeyRecord
  admits env raw_key db = filter_active env.now (load_key_by_hash (hash_key sha256 raw_key) db)

  -- The time of the last use does not decide whether a key is active.
  filter_active-forget :
      (now : ℕ) (o : Option KeyRecord)
      → option_map forget (filter_active now o) ≡ filter_active now (option_map forget o)
  unfolding is_active
  filter_active-forget now none = refl
  filter_active-forget now (some k) = ground arith

  miss-admits :
      (env : Env) (raw_key : String) (s : Store)
      → env.sql_ok 0 ≡ true
      → (authenticate_miss env (hash_key sha256 raw_key) s).0 ≡ admits env raw_key s.db
  unfolding authenticate_miss admits
  miss-admits env raw_key s up =
      elim (Option-cases (load_key_by_hash (hash_key sha256 raw_key) s.db)) [
        | inl e ↦ rw (up, e, authenticate_miss) (ground arith)
        | inr (k, e) ↦ elim (Bool-cases (is_active k env.now)) [
          | inl live ↦ rw (up, e, live, authenticate_miss) refl
          | inr dead ↦ rw (up, e, dead, authenticate_miss) refl
        ]
      ]

  -- Where cache and table agree and the database answers, an authentication that goes through the
  -- cache lets in the same key as the table alone would, up to the time of its last use, and refuses
  -- what the table would refuse.
  pub authenticate-admits :
      (env : Env) (raw_key : String) (s : Store)
      → Inv s
      → env.sql_ok 0 ≡ true
      → option_map forget (authenticate sha256 env raw_key s).0
        ≡ option_map forget (admits env raw_key s.db)
  unfolding authenticate admits
  authenticate-admits env raw_key s v up =
      elim (Option-cases (filter_active env.now (lookup (hash_key sha256 raw_key) s.keys))) [
        | inl e ↦ rw (e, authenticate) (ap (option_map forget) (miss-admits env raw_key s up))
        | inr (k, e) ↦
            let (at, live) = filter_active-eq env.now _ k e in
            let x = entry s (hash_key sha256 raw_key) k v at in
            rw (e, authenticate)
              (sym (
                filter_active-forget env.now (load_key_by_hash (hash_key sha256 raw_key) s.db)
                ∙ ap (filter_active env.now) (
                    load_key_by_hash-Agrees (hash_key sha256 raw_key) s.db x.row k x.at_hash
                      x.agrees)
                ∙ forget-filter_active env.now k live))
      ]

  -- Where cache and table agree and the role of every row is known, a start from the same database
  -- loads, provided that the database answers each statement, and the new store lets every text in as
  -- the same key as the old one at that time, up to the time of the key's last use, and refuses every
  -- text that the old one refuses.
  pub reload_caches-authenticate :
      (start later : Env) (raw_key : String) (s : Store)
      → Inv s
      → All Decodes s.db.api_keys
      → ((n : ℕ) → start.sql_ok n ≡ true)
      → later.sql_ok 0 ≡ true
      → (t : Store) × (reload_caches start (unloaded s.db) ≡ ok tt t)
        × (option_map forget (authenticate sha256 later raw_key t).0
            ≡ option_map forget (authenticate sha256 later raw_key s).0)
  reload_caches-authenticate start later raw_key s v known reached up =
      let (t, done) = reload_caches_total start s.db reached known in
      (
        t,
        done,
        authenticate-admits later raw_key t (reload_caches-Inv start s.db t v.unique done v.sane) up
            ∙ ap (λ db. option_map forget (admits later raw_key db))
                (reload_caches-db start s.db t v.unique done)
            ∙ sym (authenticate-admits later raw_key s v up),
      )
