-- ===== src/Store/Keys/Lifecycle.antt =====
-- src/store.rs, API keys: what a created, a revoked and a rotated key do at the next request.
use rustspell_server.Base.{
  ℕ, String, ◌≡◌, refl, inl, inr, true, Option, none, some, List, arith, subst, Bool-cases,
  Option-cases, string_eq, option_eq, ==-refl,
}
use rustspell_server.Base.Dict.{lookup, lookup-insert}
use rustspell_server.Store.Data.{
  Role, KeyRecord, is_active, not_expired, CreatedApiKey, Store, Env, ok,
}
use rustspell_server.Store.After.{execute-eq-ok, on_ok}
use rustspell_server.Store.Keys.{
  hash_key, generate_raw_key, create_key_internal, load_key_by_hash, answer, filter_active,
  authenticate_miss, authenticate,
}
use rustspell_server.Store.Keys.Invariant.{Inv, entry}
use rustspell_server.Store.Keys.Rotation.{load_key_by_hash-Found}

pub filter_active-eq :
    (now : ℕ) (o : Option KeyRecord) (k : KeyRecord)
    → filter_active now o ≡ some k
    → (o ≡ some k) × (is_active k now ≡ true)
filter_active-eq now none k e = absurd (cc)
filter_active-eq now (some j) k e = ground arith

module _ (sha256 : String → List ℕ) where
  -- An active entry of the cache answers the request, and nothing changes.
  pub hit-authenticate :
      (env : Env) (raw_key : String) (s : Store) (k : KeyRecord)
      → lookup (hash_key sha256 raw_key) s.keys ≡ some k
      → is_active k env.now ≡ true
      → authenticate sha256 env raw_key s ≡ (some k, s)
  unfolding authenticate
  hit-authenticate env raw_key s k e live = rw (e, live, authenticate)

  -- No active entry and no active row: the request is refused, and nothing changes.
  pub miss-authenticate :
      (env : Env) (raw_key : String) (s : Store)
      → filter_active env.now (lookup (hash_key sha256 raw_key) s.keys) ≡ none
      → filter_active env.now (load_key_by_hash (hash_key sha256 raw_key) s.db) ≡ none
      → authenticate sha256 env raw_key s ≡ (none, s)
  unfolding authenticate authenticate_miss
  miss-authenticate env raw_key s e f = rw (e, authenticate) (ground arith)

  -- What a creation has made: the record that was asked for, in the cache at the hash of its value.
  pub record IsCreated (tenant_id : Option String) (role : Role) (expires_at : Option ℕ) (s : Store)
      (created : CreatedApiKey) (t : Store) : Type 0 where
    pub owner : created.key_record.tenant_id ≡ tenant_id
    pub role_is : created.key_record.role ≡ role
    pub expires : created.key_record.expires_at ≡ expires_at
    pub unrevoked : created.key_record.revoked_at ≡ none
    pub entry_is : lookup (hash_key sha256 created.raw_key) t.keys ≡ some created.key_record
    pub tenants_stay : t.tenants ≡ s.tenants

  pub create_key_internal-IsCreated :
      (env : Env) (tenant_id : Option String) (label : String) (role : Role) (expires_at : Option ℕ)
      (s t : Store) (created : CreatedApiKey)
      → create_key_internal sha256 env tenant_id label role expires_at s ≡ ok created t
      → IsCreated tenant_id role expires_at s created t
  unfolding create_key_internal
  create_key_internal-IsCreated env tenant_id label role expires_at s t created e =
      let (db, done, rest) = execute-eq-ok (env.sql_ok 0) _ _ s created t e in
      on_ok (IsCreated tenant_id role expires_at s) rest (record {
        owner = refl;
        role_is = refl;
        expires = refl;
        unrevoked = refl;
        entry_is = rw (
          lookup-insert (hash_key sha256 (generate_raw_key env))
              (hash_key sha256 (generate_raw_key env)),
          ==-refl (hash_key sha256 (generate_raw_key env)),
        );
        tenants_stay = refl;
      })

  -- The store that a successful creation leaves accepts the new raw value as the new key, at every
  -- time at which that key has not expired, and stays as it is.
  pub create_key_internal-authenticate :
      (env later : Env) (tenant_id : Option String) (label : String) (role : Role)
      (expires_at : Option ℕ) (s t : Store) (created : CreatedApiKey)
      → create_key_internal sha256 env tenant_id label role expires_at s ≡ ok created t
      → not_expired expires_at later.now ≡ true
      → authenticate sha256 later created.raw_key t ≡ (some created.key_record, t)
  unfolding is_active
  create_key_internal-authenticate env later tenant_id label role expires_at s t created e live =
      let made = create_key_internal-IsCreated env tenant_id label role expires_at s t created e in
      hit-authenticate later created.raw_key t created.key_record made.entry_is (ground arith)

  abbrev Granted : Env → String → Option KeyRecord × Store → Type 0
  Granted env raw_key (none, t) = Unit
  Granted env raw_key (some k, t) =
      (k.key_hash ≡ hash_key sha256 raw_key) × (is_active k env.now ≡ true)

  authenticate_miss-Granted :
      (env : Env) (raw_key : String) (s : Store)
      → Granted env raw_key (authenticate_miss env (hash_key sha256 raw_key) s)
  unfolding authenticate_miss
  authenticate_miss-Granted env raw_key s =
      elim (Option-cases (answer env (hash_key sha256 raw_key) s)) [
        | inl e ↦ rw (e, authenticate_miss) tt
        | inr (k, e) ↦ elim (Bool-cases (is_active k env.now)) [
          | inl live ↦
              rw (e, live, authenticate_miss)
                ((load_key_by_hash-Found (hash_key sha256 raw_key) s.db k (ground arith)).0, live)
          | inr dead ↦ rw (e, dead, authenticate_miss) tt
        ]
      ]

  authenticate-Granted :
      (env : Env) (raw_key : String) (s : Store)
      → Inv s
      → Granted env raw_key (authenticate sha256 env raw_key s)
  unfolding authenticate
  authenticate-Granted env raw_key s v =
      elim (Option-cases (filter_active env.now (lookup (hash_key sha256 raw_key) s.keys))) [
        | inl e ↦ rw (e, authenticate) (authenticate_miss-Granted env raw_key s)
        | inr (k, e) ↦
            let (at, live) = filter_active-eq env.now _ k e in
            rw (e, authenticate) ((entry s (hash_key sha256 raw_key) k v at).hash_is, live)
      ]

  -- Where cache and table agree, whoever is let in has a key that is active at that time and whose
  -- hash is that of the text that was sent.
  pub authenticate_sound :
      (env : Env) (raw_key : String) (s t : Store) (k : KeyRecord)
      → Inv s
      → authenticate sha256 env raw_key s ≡ (some k, t)
      → (k.key_hash ≡ hash_key sha256 raw_key) × (is_active k env.now ≡ true)
  authenticate_sound env raw_key s t k v e =
      subst (Granted env raw_key) e (authenticate-Granted env raw_key s v)
