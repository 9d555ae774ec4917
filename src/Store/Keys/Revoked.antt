-- ===== src/Store/Keys/Revoked.antt =====
-- src/store.rs, API keys: a revoked key is refused.
use mathlib.Core.Option.{some-injective}
use rustspell_server.Base.{
  ℕ, ◌^◌, ◌<◌, String, ◌≡◌, sym, ◌∙◌, inl, inr, true, false, none, some, List, map, arith, find,
  All, find-All, subst, Option-cases, string_eq, option_eq, ==-refl,
}
use rustspell_server.Base.Dict.{values, lookup, modify, lookup-modify}
use rustspell_server.Store.Data.{
  KeyRecord, is_active, ApiKeyRow, Db, Store, Env, ok, key_record_from_row,
}
use rustspell_server.Store.After.{execute-eq-ok, on_ok}
use rustspell_server.Store.Keys.{
  hash_key, set_revoked_at, owned, revoke_record, revoke_key, load_key_by_hash, filter_active,
  authenticate,
}
use rustspell_server.Store.Keys.Lookup.{row_of, row_of-map}
use rustspell_server.Store.Keys.Invariant.{IsSane, Inv, entry}
use rustspell_server.Store.Keys.Updates.{find_entry, owned-id}
use rustspell_server.Store.Keys.Updates.{entry_inj, revoke_row, find_entry, owned-id}
use rustspell_server.Store.Keys.Lifecycle.{miss-authenticate}

-- A revoked record is refused at every time.
revoked-inactive : (at now : ℕ) (k : KeyRecord) → is_active (revoke_record at k) now ≡ false
unfolding is_active
revoked-inactive at now k = ground arith

-- A record read from a revoked row is refused too.
revoke_row-inactive :
    (at now : ℕ) (row : ApiKeyRow)
    → at < 2 ^ 63
    → IsSane row
    → filter_active now (key_record_from_row (revoke_row at row.id row)) ≡ none
unfolding key_record_from_row is_active
revoke_row-inactive at now row fits sane = ground (arith, string_eq.test_iff row.id row.id)

revoked-load :
    (at now : ℕ) (h : String) (db : Db) (row : ApiKeyRow)
    → at < 2 ^ 63
    → All IsSane db.api_keys
    → row_of h db.api_keys ≡ some row
    → filter_active now
        (load_key_by_hash h (record db { api_keys = map (revoke_row at row.id) db.api_keys }))
      ≡ none
unfolding load_key_by_hash
revoked-load at now h db row fits sane e =
    rw
      (
        row_of-map (revoke_row at row.id) (λ r. ground arith) (λ r. ground arith) h db.api_keys,
        e,
        load_key_by_hash,
      )
      (revoke_row-inactive at now row fits (find-All IsSane _ db.api_keys row sane e).0)

module _ (sha256 : String → List ℕ) where
  revoked-authenticate :
      (at : ℕ) (later : Env) (raw_key : String) (s : Store) (k : KeyRecord)
      → at < 2 ^ 63
      → Inv s
      → lookup (hash_key sha256 raw_key) s.keys ≡ some k
      → (let t = record s {
        db = record s.db { api_keys = map (revoke_row at k.id) s.db.api_keys };
        keys = modify (hash_key sha256 raw_key) (revoke_record at) s.keys;
      } in
          authenticate sha256 later raw_key t ≡ (none, t))
  revoked-authenticate at later raw_key s k fits v e =
      let h = hash_key sha256 raw_key in
      let x = entry s h k v e in
      miss-authenticate sha256 later raw_key _
        (rw (
          lookup-modify h h (revoke_record at) s.keys,
          ==-refl h,
          e,
          revoked-inactive at later.now k,
        ))
        (rw (← x.id_is) (revoked-load at later.now h s.db x.row fits v.sane x.at_hash))

  -- Where cache and table agree and the time fits the column, the store that a successful
  -- revocation leaves refuses the raw value of the revoked key at every time, and stays as it is.
  pub revoke_key-authenticate :
      (env later : Env) (tenant_id id raw_key : String) (s t : Store) (k : KeyRecord)
      → env.now < 2 ^ 63
      → Inv s
      → lookup (hash_key sha256 raw_key) s.keys ≡ some k
      → k.id ≡ id
      → revoke_key env tenant_id id s ≡ ok true t
      → authenticate sha256 later raw_key t ≡ (none, t)
  unfolding revoke_key set_revoked_at
  revoke_key-authenticate env later tenant_id id raw_key s t k fits v e p r =
      elim (Option-cases (find (owned tenant_id id) (values s.keys))) [
        | inl missing ↦ absurd (cc (rw (missing, revoke_key) at r))
        | inr (j, found) ↦
            let (at, mine) = find_entry s (owned tenant_id id) j v found in
            let same =
              entry_inj s j.key_hash (hash_key sha256 raw_key) j k v at e
                (owned-id tenant_id id j mine ∙ sym p) in
            let (db, done, rest) =
              execute-eq-ok (env.sql_ok 0) _ _ s true t (rw (found, revoke_key) at r) in
            on_ok (λ _ u. authenticate sha256 later raw_key u ≡ (none, u)) rest
              (subst (Refused db) (sym same) (
                subst (λ d. Refused d (hash_key sha256 raw_key)) (some-injective _ _ done)
                  (subst
                    (λ i.
                      Refused (record s.db { api_keys = map (revoke_row env.now i) s.db.api_keys })
                        (hash_key sha256 raw_key))
                    p (revoked-authenticate env.now later raw_key s k fits v e))))
      ]
    where
      Refused : Db → String → Type 0
      Refused d g =
          let u = record s { db = d; keys = modify g (revoke_record env.now) s.keys } in
          authenticate sha256 later raw_key u ≡ (none, u)
