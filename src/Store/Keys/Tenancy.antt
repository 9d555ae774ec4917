-- ===== src/Store/Keys/Tenancy.antt =====
-- src/store.rs, API keys: one tenant's calls do not reach another tenant's keys.
use mathlib.Core.Option.{some-injective}
use rustspell_server.Base.{
  ℕ, String, ◌≡◌, refl, sym, ap, ◌∙◌, ◌≢◌, inl, inr, false, Option, none, some, List, [], ◌∷◌,
  arith, find, retain, Bool-cases, Option-cases, ◌==◌, string_eq, option_eq, ==-of_ne,
}
use rustspell_server.Base.Dict.{values, lookup, lookup-insert, lookup-remove, lookup-modify}
use rustspell_server.Store.Data.{KeyRecord, CreatedApiKey, return, Store, Env, ok}
use rustspell_server.Store.After.{After, After-bind, execute-After}
use rustspell_server.Store.Keys.{
  hash_key, generate_raw_key, owned, revoke_record, revoke_key, rehash, rotate_key_by_hash,
  rotate_key, list_keys,
}
use rustspell_server.Store.Keys.Invariant.{Inv}
use rustspell_server.Store.Keys.Updates.{find_entry}
use rustspell_server.Store.Keys.Updates.{find_entry}

find-retain :
    (tenant_id id : String) (ks : List KeyRecord)
    → find (λ k. k.id == id) (retain (λ k. k.tenant_id == some tenant_id) ks)
      ≡ find (owned tenant_id id) ks
find-retain tenant_id id [] = refl
find-retain tenant_id id (k ∷ ks) = ground (arith, find-retain tenant_id id ks)

-- For an id that the tenant's own list of keys does not show, revocation says `false`, rotation
-- says `None`, and nothing changes.
pub unlisted_unchanged :
    (sha256 : String → List ℕ) (env : Env) (tenant_id id : String) (s : Store)
    → find (λ k. k.id == id) (list_keys tenant_id s) ≡ none
    → (revoke_key env tenant_id id s ≡ ok false s)
      × (rotate_key sha256 env tenant_id id s ≡ ok none s)
unfolding list_keys revoke_key rotate_key
unlisted_unchanged sha256 env tenant_id id s e =
    let missing = sym (find-retain tenant_id id (values s.keys)) ∙ e in
    (rw (missing, revoke_key), rw (missing, rotate_key))

-- The entry of `k` at `h` stays.
abbrev pub Keeps : String → KeyRecord → Store → Type 0
Keeps h k s = lookup h s.keys ≡ some k

module _ (tenant_id id : String) (s : Store) (h : String) (k : KeyRecord) (v : Inv s)
    (e : lookup h s.keys ≡ some k) (foreign : k.tenant_id ≢ some tenant_id) where
  -- The entry that a call of the tenant works on is another one.
  owned-ne :
      (j : KeyRecord)
      → find (owned tenant_id id) (values s.keys) ≡ some j
      → (lookup j.key_hash s.keys ≡ some j) × ((j.key_hash == h) ≡ false)
  owned-ne j found =
      let (at, mine) = find_entry s (owned tenant_id id) j v found in
      (
        at,
        elim (Bool-cases (j.key_hash == h)) [
          | inl hit ↦
              let one : some j ≡ some k =
                sym at ∙ ap (λ g. lookup g s.keys) ((string_eq.test_iff j.key_hash h).0 hit) ∙ e in
              absurd (
                foreign (
                  ap (λ i. i.tenant_id) (sym (some-injective _ _ one))
                  ∙ (option_eq.test_iff j.tenant_id (some tenant_id)).0 (ground arith)))
          | inr miss ↦ miss
        ],
      )

  -- Where cache and table agree, a revocation by one tenant, of any id and however it ends, leaves
  -- the cached entry of every key that is not this tenant's as it is.
  pub revoke_key-Keeps : (env : Env) → After (Keeps h k) (revoke_key env tenant_id id s)
  unfolding revoke_key
  revoke_key-Keeps env = elim (Option-cases (find (owned tenant_id id) (values s.keys))) [
    | inl missing ↦ rw (missing, revoke_key) e
    | inr (j, found) ↦
        rw (found, revoke_key)
          (execute-After (Keeps h k) (env.sql_ok 0) _ _ s e λ db done.
            rw (lookup-modify j.key_hash h (revoke_record env.now) s.keys, (owned-ne j found).1) e)
  ]

  -- Where cache and table agree, a rotation by one tenant, of any id and however it ends, leaves the
  -- cached entry of every key that is not this tenant's as it is, unless the new key's hash is that
  -- entry's hash.
  pub rotate_key-Keeps :
      (sha256 : String → List ℕ) (env : Env)
      → hash_key sha256 (generate_raw_key env) ≢ h
      → After (Keeps h k) (rotate_key sha256 env tenant_id id s)
  unfolding rotate_key rotate_key_by_hash rehash
  rotate_key-Keeps sha256 env fresh =
      elim (Option-cases (find (owned tenant_id id) (values s.keys))) [
        | inl missing ↦ rw (missing, rotate_key) e
        | inr (j, found) ↦
            rw (found, rotate_key)
              (After-bind {B = Option CreatedApiKey} (Keeps h k)
                (rotate_key_by_hash sha256 env j.key_hash id) (λ created. return (some created)) s
                (execute-After (Keeps h k) (env.sql_ok 0) _ _ s e λ db done.
                  rw ((owned-ne j found).0, rehash)
                    (rw
                      (
                        lookup-insert (hash_key sha256 (generate_raw_key env)) h,
                        ==-of_ne (hash_key sha256 (generate_raw_key env)) h fresh,
                        lookup-remove j.key_hash h s.keys,
                        (owned-ne j found).1,
                      )
                      e))
                (λ created t w. w))
      ]
