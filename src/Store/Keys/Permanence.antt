-- ===== src/Store/Keys/Permanence.antt =====
-- src/store.rs, API keys: a revocation lasts.
use mathlib.Core.Option.{some-injective}
use rustspell_server.Base.{
  ℕ, ◌^◌, ◌<◌, String, ◌≡◌, ◌≢◌, refl, sym, ap, ◌∙◌, subst, inl, inr, true, false, Option, none,
  some, List, [], ◌∷◌, map, arith, any, find, find-All, is_some, Option-cases, Bool-cases, ◌==◌,
  string_eq, option_eq, ==-sym,
}
use rustspell_server.Base.Dict.{values, lookup}
use rustspell_server.Store.Data.{
  KeyRecord, is_active, ApiKeyRow, Db, Store, Env, ok, key_record_from_row,
}
use rustspell_server.Store.After.{After, execute-eq-ok, on_ok}
use rustspell_server.Store.Keys.{
  hash_key, owned, set_revoked_at, revoke_key, answer, filter_active, authenticate_miss,
  authenticate,
}
use rustspell_server.Store.Keys.Lookup.{row_of, Differs, Differs-row_by_id, IsUnique}
use rustspell_server.Store.Keys.Invariant.{Agrees, Agrees-id, Found, IsSane, Inv, entry}
use rustspell_server.Store.Keys.Updates.{revoke_key-Inv, find_entry, owned-id, revoke_row}
use rustspell_server.Store.Keys.Rotation.{load_key_by_hash-Found}
use rustspell_server.Store.Keys.Lifecycle.{filter_active-eq}
use rustspell_server.Store.Keys.History.{
  After-Leaves, KeyStep, creates, revokes, rotates, authenticates, touches, resets, persists,
  Reachable, start, step, Reachable-Inv,
}
use rustspell_server.Store.Keys.Revocation.{
  is_revoked, IsRevoked, run_pending-IsRevoked, create_key_internal-IsRevoked, revoke_key-IsRevoked,
  rotate_key-IsRevoked, reset_bootstrap_platform_key-IsRevoked, authenticate-IsRevoked,
  touch_last_used-IsRevoked,
}

module _ (sha256 : String → List ℕ) (id : String) where
  KeyStep-IsRevoked : (s t : Store) → IsRevoked id s → KeyStep sha256 s t → IsRevoked id t
  KeyStep-IsRevoked s t h (creates env tenant_id label role expires_at u _ _ _ l) =
      After-Leaves (IsRevoked id) _ u
        (create_key_internal-IsRevoked id sha256 env tenant_id label role expires_at s h) l
  KeyStep-IsRevoked s t h (revokes env tenant_id i u _ l) =
      After-Leaves (IsRevoked id) _ u (revoke_key-IsRevoked id env tenant_id i s h) l
  KeyStep-IsRevoked s t h (rotates env tenant_id i u l) =
      After-Leaves (IsRevoked id) _ u (rotate_key-IsRevoked id sha256 env tenant_id i s h) l
  KeyStep-IsRevoked s t h (authenticates env raw_key) =
      authenticate-IsRevoked id sha256 env raw_key s h
  KeyStep-IsRevoked s t h (touches env i) = touch_last_used-IsRevoked id env i s h
  KeyStep-IsRevoked s t h (resets env u _ l) =
      After-Leaves (IsRevoked id) _ u (reset_bootstrap_platform_key-IsRevoked id sha256 env s h) l
  KeyStep-IsRevoked s t h (persists reached before w after e) =
      run_pending-IsRevoked id reached before w after s h

  Reachable-IsRevoked : (s t : Store) → IsRevoked id s → Reachable sha256 s t → IsRevoked id t
  Reachable-IsRevoked s t h start = h
  Reachable-IsRevoked s t h (step u w r k) = KeyStep-IsRevoked u w (Reachable-IsRevoked s u h r) k

Differs-revoked :
    (r : ApiKeyRow) (rs : List ApiKeyRow) → Differs r rs → any (is_revoked r.id) rs ≡ false
Differs-revoked r [] d = refl
Differs-revoked r (q ∷ qs) d = ground (arith, Differs-revoked r qs d.2)

first-revoked :
    (id : String) (r : ApiKeyRow) (rs : List ApiKeyRow)
    → Differs r rs
    → r.id ≡ id
    → any (is_revoked id) (r ∷ rs) ≡ true
    → is_some r.revoked_at ≡ true
first-revoked id r rs d p h =
    let here : any (is_revoked r.id) (r ∷ rs) ≡ true =
      subst (λ i. any (is_revoked i) (r ∷ rs) ≡ true) (sym p) h in
    ground (arith, Differs-revoked r rs d)

-- The one row of a revoked id is the revoked one.
row_of-revoked :
    (h id : String) (rows : List ApiKeyRow) (row : ApiKeyRow)
    → IsUnique rows
    → row_of h rows ≡ some row
    → row.id ≡ id
    → any (is_revoked id) rows ≡ true
    → is_some row.revoked_at ≡ true
row_of-revoked h id [] row u e p r = absurd (cc)
row_of-revoked h id (x ∷ xs) row u e p r = elim (Bool-cases (x.key_hash == h)) [
  | inl hit ↦
      let same : x ≡ row = some-injective _ _ (rw hit at e) in
      subst (λ q. is_some q.revoked_at ≡ true) same
        (first-revoked id x xs u.0 (ap (λ q. q.id) same ∙ p) r)
  | inr miss ↦
      let later : row_of h xs ≡ some row = rw miss at e in
      let apart : (row.id == x.id) ≡ false = (Differs-row_by_id x row xs h u.0 later).0 in
      let other : (x.id == id) ≡ false =
        ==-sym x.id id ∙ subst (λ i. (i == x.id) ≡ false) p apart in
      row_of-revoked h id xs row u.1 later p (rw other at r)
]

Agrees-dead :
    (k : KeyRecord) (row : ApiKeyRow) (now : ℕ)
    → Agrees k row
    → IsSane row
    → is_some row.revoked_at ≡ true
    → is_active k now ≡ false
unfolding key_record_from_row is_active
Agrees-dead k row now a sane r = ground arith

module _ (sha256 : String → List ℕ) where
  -- Who is let in has a row, which reads back as the record.
  abbrev Backed : Env → String → Db → Option KeyRecord × Store → Type 0
  Backed env raw_key db (none, t) = Unit
  Backed env raw_key db (some k, t) =
      (is_active k env.now ≡ true) × Found k (row_of (hash_key sha256 raw_key) db.api_keys)

  miss-Backed :
      (env : Env) (raw_key : String) (s : Store) (o : Option KeyRecord)
      → answer env (hash_key sha256 raw_key) s ≡ o
      → Backed env raw_key s.db (authenticate_miss env (hash_key sha256 raw_key) s)
  unfolding authenticate_miss
  miss-Backed env raw_key s none e = rw (e, authenticate_miss) tt
  miss-Backed env raw_key s (some k) e = elim (Bool-cases (is_active k env.now)) [
    | inl live ↦
        rw (e, live, authenticate_miss)
          (live, (load_key_by_hash-Found (hash_key sha256 raw_key) s.db k (ground arith)).1)
    | inr dead ↦ rw (e, dead, authenticate_miss) tt
  ]

  authenticate-Backed :
      (env : Env) (raw_key : String) (s : Store)
      → Inv s
      → Backed env raw_key s.db (authenticate sha256 env raw_key s)
  unfolding authenticate
  authenticate-Backed env raw_key s v =
      elim (Option-cases (filter_active env.now (lookup (hash_key sha256 raw_key) s.keys))) [
        | inl e ↦ rw (e, authenticate) (miss-Backed env raw_key s _ refl)
        | inr (k, e) ↦
            let (at, live) = filter_active-eq env.now _ k e in
            let x = entry s (hash_key sha256 raw_key) k v at in
            rw (e, x.at_hash, authenticate) (live, x.agrees)
      ]

  -- In a store where cache and table agree, nobody is let in under a revoked id.
  refused :
      (id : String) (env : Env) (raw_key : String) (s t : Store) (k : KeyRecord)
      → Inv s
      → IsRevoked id s
      → authenticate sha256 env raw_key s ≡ (some k, t)
      → k.id ≢ id
  refused id env raw_key s t k v h e same =
      found (row_of (hash_key sha256 raw_key) s.db.api_keys) refl backed.1
    where
      backed :
          (is_active k env.now ≡ true) × Found k (row_of (hash_key sha256 raw_key) s.db.api_keys)
      backed = subst (Backed env raw_key s.db) e (authenticate-Backed env raw_key s v)

      found :
          (o : Option ApiKeyRow)
          → row_of (hash_key sha256 raw_key) s.db.api_keys ≡ o
          → Found k o
          → ⊥
      found none p f = f
      found (some row) p f =
          let id_is = (Agrees-id k row f).0 in
          let revoked =
            row_of-revoked (hash_key sha256 raw_key) id s.db.api_keys row v.unique p (id_is ∙ same)
              h in
          let dead =
            Agrees-dead k row env.now f (find-All IsSane _ s.db.api_keys row v.sane p).0 revoked in
          absurd (cc (dead, backed.0))

any-revoke_row :
    (at : ℕ) (h id : String) (rows : List ApiKeyRow) (row : ApiKeyRow)
    → row_of h rows ≡ some row
    → row.id ≡ id
    → any (is_revoked id) (map (revoke_row at id) rows) ≡ true
any-revoke_row at h id [] row e p = absurd (cc)
any-revoke_row at h id (x ∷ xs) row e p =
    ground (arith, string_eq.test_iff x.id id, any-revoke_row at h id xs row)

pub revoke_key_lem :
    (env : Env) (tenant_id id : String) (s t : Store)
    → Inv s
    → revoke_key env tenant_id id s ≡ ok true t
    → IsRevoked id t
unfolding revoke_key set_revoked_at
revoke_key_lem env tenant_id id s t v r =
    elim (Option-cases (find (owned tenant_id id) (values s.keys))) [
      | inl missing ↦ absurd (cc (rw (missing, revoke_key) at r))
      | inr (k, there) ↦
          let (at, mine) = find_entry s (owned tenant_id id) k v there in
          let x = entry s k.key_hash k v at in
          let (db, done, rest) =
            execute-eq-ok (env.sql_ok 0) _ _ s true t (rw (there, revoke_key) at r) in
          on_ok (λ _ u. IsRevoked id u) rest
            (subst (λ d. any (is_revoked id) d.api_keys ≡ true) (some-injective _ _ done)
              (any-revoke_row env.now k.key_hash id s.db.api_keys x.row x.at_hash
                (x.id_is ∙ owned-id tenant_id id k mine)))
    ]

-- Where cache and table agree and the time fits the column, a revocation that succeeds lasts: after
-- any sequence of creations, revocations, rotations, resets of the bootstrap key, authentications
-- and uses of keys and of background writes, with times that fit the columns and no empty tenant
-- id, nobody is let in as a key of the revoked id, at any time and whatever text is sent.
pub revoke_key-Reachable :
    (sha256 : String → List ℕ) (env later : Env) (tenant_id id raw_key : String) (s t u w : Store)
    (k : KeyRecord)
    → env.now < 2 ^ 63
    → Inv s
    → revoke_key env tenant_id id s ≡ ok true t
    → Reachable sha256 t u
    → authenticate sha256 later raw_key u ≡ (some k, w)
    → k.id ≢ id
revoke_key-Reachable sha256 env later tenant_id id raw_key s t u w k fits v r past let_in =
    let after : Inv t = subst (After Inv) r (revoke_key-Inv env tenant_id id s fits v) in
    refused sha256 id later raw_key u w k (Reachable-Inv sha256 t u after past)
      (Reachable-IsRevoked sha256 id t u (revoke_key_lem env tenant_id id s t v r) past) let_in
