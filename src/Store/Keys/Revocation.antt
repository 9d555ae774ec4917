-- ===== src/Store/Keys/Revocation.antt =====
-- src/store.rs, API keys: no statement takes a revocation back.
use mathlib.Core.Option.{some-injective}
use rustspell_server.Base.{
  ℕ, String, ◌≡◌, refl, subst, inl, inr, Bool, true, false, ◌&&◌, Option, none, some, List, [], ◌∷◌,
  ◌++◌, map, arith, any, find, retain, is_some, Option-cases, Bool-cases, ◌==◌, string_eq,
  option_eq,
}
use rustspell_server.Base.Dict.{values, lookup}
use rustspell_server.Store.Data.{
  Role, platform, KeyRecord, is_active, CreatedApiKey, ApiKeyRow, Db, Write, last_used,
  request_count, Store, Env, return,
}
use rustspell_server.Store.After.{After, execute-After, After-bind}
use rustspell_server.Store.Background.{use_row, persist, run_pending}
use rustspell_server.Store.Keys.{
  set_revoked_at, set_key_hash, create_key_internal, owned, revoke_key, rehash, rotate_key_by_hash,
  rotate_key, bootstrap_key, reset_bootstrap_platform_key, answer, authenticate_miss, authenticate,
  filter_active, touch_last_used, hash_key,
}
use rustspell_server.Store.Keys.Lookup.{with_hash}
use rustspell_server.Store.Keys.Invariant.{insert_api_key-eq}
use rustspell_server.Store.Keys.Updates.{revoke_row}

abbrev pub is_revoked : String → ApiKeyRow → Bool
is_revoked id r = r.id == id && is_some r.revoked_at

-- The table has a row of that id with a time of revocation.
abbrev pub IsRevoked : String → Store → Type 0
IsRevoked id s = any (is_revoked id) s.db.api_keys ≡ true

any-append {ℓ} :
    {A : Type ℓ} (p : A → Bool) (xs ys : List A) → any p xs ≡ true → any p (xs ++ ys) ≡ true
any-append p [] ys h = absurd (cc)
any-append p (x ∷ xs) ys h = ground (arith, any-append p xs ys)

any-map {ℓ} :
    {A : Type ℓ} (p : A → Bool) (f : A → A)
    → ((x : A) → p x ≡ true → p (f x) ≡ true)
    → (xs : List A) → any p xs ≡ true
    → any p (map f xs) ≡ true
any-map p f k [] h = absurd (cc)
any-map p f k (x ∷ xs) h = ground (arith, k x, any-map p f k xs)

module _ (id : String) where
  revoke_row-revoked :
      (at : ℕ) (i : String) (r : ApiKeyRow)
      → is_revoked id r ≡ true
      → is_revoked id (revoke_row at i r) ≡ true
  revoke_row-revoked at i r h = ground arith

  with_hash-revoked :
      (hash i : String) (r : ApiKeyRow)
      → is_revoked id r ≡ true
      → is_revoked id (with_hash hash i r) ≡ true
  with_hash-revoked hash i r h = ground arith

  use_row-revoked :
      (at : ℕ) (i : String) (r : ApiKeyRow)
      → is_revoked id r ≡ true
      → is_revoked id (use_row at i r) ≡ true
  use_row-revoked at i r h = ground arith

  pub run_pending-IsRevoked :
      (reached : Bool) (before : List Write) (w : Write) (after : List Write) (s : Store)
      → IsRevoked id s
      → IsRevoked id (run_pending reached before w after s)
  unfolding run_pending persist
  run_pending-IsRevoked false before w after s h = h
  run_pending-IsRevoked true before (request_count count i) after s h = h
  run_pending-IsRevoked true before (last_used at i) after s h =
      any-map (is_revoked id) (use_row at i) (use_row-revoked at i) s.db.api_keys h

  pub create_key_internal-IsRevoked :
      (sha256 : String → List ℕ) (env : Env) (tenant_id : Option String) (label : String)
      (role : Role) (expires_at : Option ℕ) (s : Store)
      → IsRevoked id s
      → After (IsRevoked id) (create_key_internal sha256 env tenant_id label role expires_at s)
  unfolding create_key_internal
  create_key_internal-IsRevoked sha256 env tenant_id label role expires_at s h =
      execute-After (IsRevoked id) (env.sql_ok 0) _ _ s h λ db e.
        let (free, is) = insert_api_key-eq _ s.db db e in
        rw is (any-append (is_revoked id) s.db.api_keys _ h)

  pub revoke_key-IsRevoked :
      (env : Env) (tenant_id i : String) (s : Store)
      → IsRevoked id s
      → After (IsRevoked id) (revoke_key env tenant_id i s)
  unfolding revoke_key set_revoked_at
  revoke_key-IsRevoked env tenant_id i s h =
      elim (Option-cases (find (owned tenant_id i) (values s.keys))) [
        | inl e ↦ rw (e, revoke_key) h
        | inr (k, e) ↦
            rw (e, revoke_key)
              (execute-After (IsRevoked id) (env.sql_ok 0) _ _ s h λ db done.
                subst (λ d. IsRevoked id (record s { db = d })) (some-injective _ _ done)
                  (any-map (is_revoked id) (revoke_row env.now i) (revoke_row-revoked env.now i)
                    s.db.api_keys h))
      ]

  rehash-IsRevoked :
      (sha256 : String → List ℕ) (env : Env) (hash : String) (s : Store)
      → IsRevoked id s
      → After (IsRevoked id) (rehash sha256 env hash s)
  unfolding rehash
  rehash-IsRevoked sha256 env hash s h = elim (Option-cases (lookup hash s.keys)) [
    | inl e ↦ rw (e, rehash) tt
    | inr (k, e) ↦ rw (e, rehash) h
  ]

  set_key_hash-revoked :
      (hash i : String) (db db' : Db)
      → any (is_revoked id) db.api_keys ≡ true
      → set_key_hash hash i db ≡ some db'
      → any (is_revoked id) db'.api_keys ≡ true
  unfolding set_key_hash
  set_key_hash-revoked hash i db db' h e =
      ground
        (arith, any-map (is_revoked id) (with_hash hash i) (with_hash-revoked hash i) db.api_keys)

  rotate_key_by_hash-IsRevoked :
      (sha256 : String → List ℕ) (env : Env) (hash i : String) (s : Store)
      → IsRevoked id s
      → After (IsRevoked id) (rotate_key_by_hash sha256 env hash i s)
  unfolding rotate_key_by_hash
  rotate_key_by_hash-IsRevoked sha256 env hash i s h =
      execute-After (IsRevoked id) (env.sql_ok 0) _ _ s h λ db e.
        rehash-IsRevoked sha256 env hash (record s { db = db })
          (set_key_hash-revoked _ i s.db db h e)

  pub rotate_key-IsRevoked :
      (sha256 : String → List ℕ) (env : Env) (tenant_id i : String) (s : Store)
      → IsRevoked id s
      → After (IsRevoked id) (rotate_key sha256 env tenant_id i s)
  unfolding rotate_key
  rotate_key-IsRevoked sha256 env tenant_id i s h =
      elim (Option-cases (find (owned tenant_id i) (values s.keys))) [
        | inl e ↦ rw (e, rotate_key) h
        | inr (k, e) ↦
            rw (e, rotate_key)
              (After-bind {B = Option CreatedApiKey} (IsRevoked id)
                (rotate_key_by_hash sha256 env k.key_hash i) (λ created. return (some created)) s
                (rotate_key_by_hash-IsRevoked sha256 env k.key_hash i s h) (λ created t w. w))
      ]

  pub reset_bootstrap_platform_key-IsRevoked :
      (sha256 : String → List ℕ) (env : Env) (s : Store)
      → IsRevoked id s
      → After (IsRevoked id) (reset_bootstrap_platform_key sha256 env s)
  unfolding reset_bootstrap_platform_key
  reset_bootstrap_platform_key-IsRevoked sha256 env s h =
      reset (retain (bootstrap_key sha256 env.now) (values s.keys)) refl
    where
      reset :
          (ks : List KeyRecord)
          → retain (bootstrap_key sha256 env.now) (values s.keys) ≡ ks
          → After (IsRevoked id) (reset_bootstrap_platform_key sha256 env s)
      reset [] e =
          rw (e, reset_bootstrap_platform_key)
            (create_key_internal-IsRevoked sha256 env none "bootstrap" platform none s h)
      reset (k ∷ []) e =
          rw (e, reset_bootstrap_platform_key)
            (rotate_key_by_hash-IsRevoked sha256 env k.key_hash k.id s h)
      reset (k ∷ j ∷ ks) e = rw (e, reset_bootstrap_platform_key) h

  pub authenticate-IsRevoked :
      (sha256 : String → List ℕ) (env : Env) (raw_key : String) (s : Store)
      → IsRevoked id s
      → IsRevoked id (authenticate sha256 env raw_key s).1
  unfolding authenticate authenticate_miss
  authenticate-IsRevoked sha256 env raw_key s h =
      elim (Option-cases (filter_active env.now (lookup (hash_key sha256 raw_key) s.keys))) [
        | inl e ↦ rw (e, authenticate) (miss (answer env (hash_key sha256 raw_key) s) refl)
        | inr (k, e) ↦ rw (e, authenticate) h
      ]
    where
      miss :
          (o : Option KeyRecord)
          → answer env (hash_key sha256 raw_key) s ≡ o
          → IsRevoked id (authenticate_miss env (hash_key sha256 raw_key) s).1
      miss none e = rw (e, authenticate_miss) h
      miss (some k) e = elim (Bool-cases (is_active k env.now)) [
        | inl live ↦ rw (e, live, authenticate_miss) h
        | inr dead ↦ rw (e, dead, authenticate_miss) h
      ]

  pub touch_last_used-IsRevoked :
      (env : Env) (i : String) (s : Store) → IsRevoked id s → IsRevoked id (touch_last_used env i s)
  unfolding touch_last_used
  touch_last_used-IsRevoked env i s h =
      elim (Option-cases (find (λ k. k.id == i) (values s.keys))) [
        | inl e ↦ rw (e, touch_last_used) h
        | inr (k, e) ↦ rw (e, touch_last_used) h
      ]
