-- ===== src/Store/Keys/Rotated.antt =====
-- src/store.rs, API keys: a rotated key is accepted under its new value only.
use mathlib.Core.Option.{some-injective}
use rustspell_server.Base.{
  ℕ, String, ◌≡◌, refl, sym, ap, ◌∙◌, ◌≢◌, inl, inr, true, Option, none, some, List, map, find,
  subst, Option-cases, string_eq, option_eq, ==-refl, ==-of_ne,
}
use rustspell_server.Base.Dict.{values, lookup, insert, remove, lookup-insert, lookup-remove}
use rustspell_server.Store.Data.{KeyRecord, is_active, CreatedApiKey, return, Store, Env, ok}
use rustspell_server.Store.After.{execute-eq-ok, bind-eq-ok, on_ok}
use rustspell_server.Store.Keys.{
  hash_key, generate_raw_key, owned, rehash, rotate_key_by_hash, rotate_key, load_key_by_hash,
  filter_active, authenticate,
}
use rustspell_server.Store.Keys.Lookup.{IsFree, with_hash, row_of-with_hash_old}
use rustspell_server.Store.Keys.Invariant.{Inv, entry}
use rustspell_server.Store.Keys.Updates.{find_entry, owned-id}
use rustspell_server.Store.Keys.Rotation.{set_key_hash-eq, any_of-row_of, rotated}
use rustspell_server.Store.Keys.Updates.{entry_inj, find_entry, owned-id}
use rustspell_server.Store.Keys.Lifecycle.{hit-authenticate, miss-authenticate}

module _ (sha256 : String → List ℕ) where
  -- A rotation has gone as it should: the same key under the new value, and only there.
  pub record IsRotated (s : Store) (k : KeyRecord) (old_hash : String) (created : CreatedApiKey)
      (t : Store) : Type 0 where
    pub same_key : created.key_record ≡ rotated (hash_key sha256 created.raw_key) k
    pub accepted :
        (later : Env)
        → is_active k later.now ≡ true
        → authenticate sha256 later created.raw_key t ≡ (some created.key_record, t)
    pub refused :
        (later : Env) (old : String)
        → hash_key sha256 old ≡ old_hash
        → hash_key sha256 created.raw_key ≢ old_hash
        → authenticate sha256 later old t ≡ (none, t)

  rotated-active :
      (hash : String) (k : KeyRecord) (now : ℕ) → is_active (rotated hash k) now ≡ is_active k now
  unfolding is_active
  rotated-active hash k now = refl

  module _ (s : Store) (v : Inv s) (k : KeyRecord) (at : lookup k.key_hash s.keys ≡ some k)
      (raw : String) (free : IsFree (hash_key sha256 raw) k.id s.db.api_keys) where
    abbrev after : Store
    after = record s {
      db = record s.db { api_keys = map (with_hash (hash_key sha256 raw) k.id) s.db.api_keys };
      keys =
          insert (hash_key sha256 raw) (rotated (hash_key sha256 raw) k) (remove k.key_hash s.keys);
    }

    after_new : lookup (hash_key sha256 raw) after.keys ≡ some (rotated (hash_key sha256 raw) k)
    after_new =
        rw
          (lookup-insert (hash_key sha256 raw) (hash_key sha256 raw), ==-refl (hash_key sha256 raw))

    after_old :
        (later : Env) (old : String)
        → hash_key sha256 old ≡ k.key_hash
        → hash_key sha256 raw ≢ k.key_hash
        → authenticate sha256 later old after ≡ (none, after)
    unfolding load_key_by_hash
    after_old later old same n =
        let x = entry s k.key_hash k v at in
        miss-authenticate sha256 later old after
          (rw
            (
              same,
              lookup-insert (hash_key sha256 raw) k.key_hash,
              ==-of_ne (hash_key sha256 raw) k.key_hash n,
              lookup-remove k.key_hash k.key_hash s.keys,
              ==-refl k.key_hash,
            )
            refl)
          (subst (λ h. filter_active later.now (load_key_by_hash h after.db) ≡ none) (sym same)
            (rw
              (
                row_of-with_hash_old k.key_hash (hash_key sha256 raw) k.id s.db.api_keys x.row
                    v.unique (==-of_ne k.key_hash (hash_key sha256 raw) (λ e. n (sym e))) x.at_hash
                    ((string_eq.test_iff x.row.id k.id).1 x.id_is),
                load_key_by_hash,
              )
              refl))

    after-IsRotated :
        IsRotated s k k.key_hash
          (record { key_record = rotated (hash_key sha256 raw) k; raw_key = raw })
          after
    after-IsRotated = record {
      same_key = refl;
      accepted = λ later live.
          hit-authenticate sha256 later raw after _ after_new
            (rotated-active (hash_key sha256 raw) k later.now ∙ live);
      refused = after_old;
    }

  pub rotate_key_by_hash-IsRotated :
      (env : Env) (s t : Store) (k : KeyRecord) (created : CreatedApiKey)
      → Inv s
      → lookup k.key_hash s.keys ≡ some k
      → rotate_key_by_hash sha256 env k.key_hash k.id s ≡ ok created t
      → IsRotated s k k.key_hash created t
  unfolding rotate_key_by_hash rehash
  rotate_key_by_hash-IsRotated env s t k created v at e =
      let x = entry s k.key_hash k v at in
      let (db, done, rest) = execute-eq-ok (env.sql_ok 0) _ _ s created t e in
      let (free, is) =
        set_key_hash-eq (hash_key sha256 (generate_raw_key env)) k.id s.db db done
          (any_of-row_of k.key_hash k.id s.db.api_keys x.row x.at_hash x.id_is) in
      on_ok (IsRotated s k k.key_hash) rest (
        rw (at, rehash)
          (subst
            (λ d.
              IsRotated s k k.key_hash
                (record {
                  key_record = rotated (hash_key sha256 (generate_raw_key env)) k;
                  raw_key = generate_raw_key env;
                })
                (record s {
                  db = d;
                  keys =
                      insert (hash_key sha256 (generate_raw_key env))
                        (rotated (hash_key sha256 (generate_raw_key env)) k)
                        (remove k.key_hash s.keys);
                }))
            is (after-IsRotated s v k at (generate_raw_key env) free)))

  -- A rotation by id of a key in the cache: the id names that key alone.
  pub rotate_key-IsRotated :
      (env : Env) (tenant_id id : String) (s t : Store) (h : String) (k : KeyRecord)
      (created : CreatedApiKey)
      → Inv s
      → lookup h s.keys ≡ some k
      → k.id ≡ id
      → rotate_key sha256 env tenant_id id s ≡ ok (some created) t
      → IsRotated s k h created t
  unfolding rotate_key
  rotate_key-IsRotated env tenant_id id s t h k created v e p r =
      elim (Option-cases (find (owned tenant_id id) (values s.keys))) [
        | inl missing ↦ absurd (cc (rw (missing, rotate_key) at r))
        | inr (j, found) ↦
            let (at, mine) = find_entry s (owned tenant_id id) j v found in
            let j_id = owned-id tenant_id id j mine in
            let same = entry_inj s j.key_hash h j k v at e (j_id ∙ sym p) in
            let one : j ≡ k = some-injective _ _ (sym at ∙ ap (λ g. lookup g s.keys) same ∙ e) in
            let (c, u, run, back) =
              bind-eq-ok (rotate_key_by_hash sha256 env j.key_hash id) (λ c. return (some c)) s
                (some created) t (rw (found, rotate_key) at r) in
            on_ok (λ o w. IsReturned s k h o w) back
              (subst (λ i. IsRotated s i h c u) one
                (subst (λ g. IsRotated s j g c u) same
                  (rotate_key_by_hash-IsRotated env s u j c v at (
                    subst (λ i. rotate_key_by_hash sha256 env j.key_hash i s ≡ ok c u) (sym j_id)
                      run))))
      ]
    where
      IsReturned : Store → KeyRecord → String → Option CreatedApiKey → Store → Type 0
      IsReturned s k h none w = Unit
      IsReturned s k h (some c) w = IsRotated s k h c w

  -- Where cache and table agree, a rotation that succeeds returns the record of the key, which was
  -- cached at `h`, under the hash of the new raw value and with no last use. At a time at which
  -- that record is active the new value is accepted, and a text whose hash is the old one is
  -- refused, where the new hash is another.
  pub rotate_key-authenticate :
      (env later : Env) (tenant_id id old : String) (s t : Store) (h : String) (k : KeyRecord)
      (created : CreatedApiKey)
      → Inv s
      → lookup h s.keys ≡ some k
      → k.id ≡ id
      → rotate_key sha256 env tenant_id id s ≡ ok (some created) t
      → is_active k later.now ≡ true
      → hash_key sha256 old ≡ h
      → hash_key sha256 created.raw_key ≢ h
      → (created.key_record ≡ rotated (hash_key sha256 created.raw_key) k)
        × (authenticate sha256 later created.raw_key t ≡ (some created.key_record, t))
        × (authenticate sha256 later old t ≡ (none, t))
  rotate_key-authenticate env later tenant_id id old s t h k created v e p r live was new =
      let made = rotate_key-IsRotated env tenant_id id s t h k created v e p r in
      (made.same_key, made.accepted later live, made.refused later old was new)
