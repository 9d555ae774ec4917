-- ===== src/Store/Keys/Rotation.antt =====
-- src/store.rs, API keys: rotation and authentication keep the invariant.
use rustspell_server.Base.{
  ℕ, String, ◌≡◌, refl, sym, ap, ◌∙◌, inl, inr, true, false, not, Option, none, some, List, [], ◌∷◌,
  map, arith, any, find, retain, All-map, subst, Bool-cases, Option-cases, ◌==◌, string_eq,
  option_eq, ==-sym,
}
use rustspell_server.Base.Dict.{
  Dict, option_map, values, lookup, insert, remove, lookup-insert, lookup-remove,
}
use rustspell_server.Base.Dict.Distinct.{
  insert-IsDistinct, remove-IsDistinct, retain-IsDistinct, lookup-retain,
}
use rustspell_server.Store.Data.{
  KeyRecord, is_active, CreatedApiKey, ApiKeyRow, Db, return, Store, Env, key_record_from_row,
}
use rustspell_server.Store.After.{After, After-bind, execute-After}
use rustspell_server.Store.Keys.{
  hash_key, generate_raw_key, set_key_hash, owned, rehash, rotate_key_by_hash, rotate_key,
  load_key_by_hash, answer, filter_active, authenticate_miss, authenticate,
}
use rustspell_server.Store.Keys.Lookup.{
  row_of, IsFree, with_hash, row_of-hash, with_hash-IsUnique, row_of-with_hash_ne,
  row_of-with_hash_new,
}
use rustspell_server.Store.Keys.Invariant.{
  forget, Agrees, IsSane, Found, Linked, Inv, Agrees-id, entry,
}
use rustspell_server.Store.Keys.Updates.{entry-ne, find_entry, owned-id}

-- What a rotation statement that passed has done.
pub set_key_hash-eq :
    (hash id : String) (db db' : Db)
    → set_key_hash hash id db ≡ some db'
    → any (λ r. r.id == id) db.api_keys ≡ true
    → IsFree hash id db.api_keys
      × (record db { api_keys = map (with_hash hash id) db.api_keys } ≡ db')
unfolding set_key_hash
set_key_hash-eq hash id db db' e there = ground arith

pub any_of-row_of :
    (h id : String) (rows : List ApiKeyRow) (r : ApiKeyRow)
    → row_of h rows ≡ some r
    → r.id ≡ id
    → any (λ q. q.id == id) rows ≡ true
any_of-row_of h id [] r e p = cc
any_of-row_of h id (q ∷ qs) r e p =
    ground (arith, string_eq.test_iff q.id id, any_of-row_of h id qs r)

abbrev pub rotated : String → KeyRecord → KeyRecord
rotated hash k = record k { key_hash = hash; last_used_at = none }

rotated-Agrees :
    (hash : String) (k : KeyRecord) (r : ApiKeyRow)
    → r.id ≡ k.id
    → Agrees k r
    → Agrees (rotated hash k) (with_hash hash k.id r)
unfolding key_record_from_row
rotated-Agrees hash k r e a = ground (arith, string_eq.test_iff r.id k.id)

-- A rotation of the key at `h` to the hash `hash`, once its statement has passed.
module _ (s : Store) (v : Inv s) (h hash : String) (k : KeyRecord) (at : lookup h s.keys ≡ some k)
    (free : IsFree hash k.id s.db.api_keys) where
  rotated-Linked_other :
      (g : String) (o : Option KeyRecord)
      → lookup g s.keys ≡ o
      → (h == g) ≡ false
      → (hash == g) ≡ false
      → Linked g o (row_of g (map (with_hash hash k.id) s.db.api_keys))
  rotated-Linked_other g none e n m = tt
  rotated-Linked_other g (some j) e n m =
      let y = entry s g j v e in
      let x = entry s h k v at in
      rw
        (row_of-with_hash_ne g hash k.id s.db.api_keys y.row (==-sym g hash ∙ m) y.at_hash
          (entry-ne s v g h j k y x n))
        (y.hash_is, y.agrees)

  rotated-Linked :
      (g : String)
      → Linked g
          (lookup g (insert hash (rotated hash k) (remove h s.keys)))
          (row_of g (map (with_hash hash k.id) s.db.api_keys))
  rotated-Linked g =
      rw (lookup-insert hash g (rotated hash k) (remove h s.keys), lookup-remove h g s.keys)
        (elim (Bool-cases (hash == g)) [
          | inl hit ↦ rw (hit, ← (string_eq.test_iff hash g).0 hit) here
          | inr miss ↦ rw miss (elim (Bool-cases (h == g)) [
            | inl old ↦ rw old tt
            | inr new ↦ rw new (rotated-Linked_other g (lookup g s.keys) refl new miss)
          ])
        ])
    where
      here :
          (hash ≡ hash)
          × Found (rotated hash k) (row_of hash (map (with_hash hash k.id) s.db.api_keys))
      here =
          let x = entry s h k v at in
          rw
            (row_of-with_hash_new h hash k.id s.db.api_keys x.row v.unique free x.at_hash
              ((string_eq.test_iff x.row.id k.id).1 x.id_is))
            (refl, rotated-Agrees hash k x.row x.id_is x.agrees)

  pub rotated-Inv : Inv (record s {
    db = record s.db { api_keys = map (with_hash hash k.id) s.db.api_keys };
    keys = insert hash (rotated hash k) (remove h s.keys);
  })
  rotated-Inv = record {
    distinct = insert-IsDistinct hash (rotated hash k) _ (remove-IsDistinct h s.keys v.distinct);
    unique = with_hash-IsUnique hash k.id s.db.api_keys free v.unique;
    sane = All-map IsSane (with_hash hash k.id) (λ r i. ground arith) s.db.api_keys v.sane;
    linked = rotated-Linked;
  }

-- A rotation by the cached hash of a key.
pub rotate_key_by_hash-Inv :
    (sha256 : String → List ℕ) (env : Env) (k : KeyRecord) (s : Store)
    → lookup k.key_hash s.keys ≡ some k
    → Inv s
    → After Inv (rotate_key_by_hash sha256 env k.key_hash k.id s)
unfolding rotate_key_by_hash rehash
rotate_key_by_hash-Inv sha256 env k s at v = execute-After Inv (env.sql_ok 0) _ _ s v λ db done.
    let x = entry s k.key_hash k v at in
    let (free, is) =
      set_key_hash-eq _ k.id s.db db done
        (any_of-row_of k.key_hash k.id s.db.api_keys x.row x.at_hash x.id_is) in
    rw (at, rehash)
      (subst
        (λ d. Inv (record s {
          db = d;
          keys =
              insert (hash_key sha256 (generate_raw_key env))
                (rotated (hash_key sha256 (generate_raw_key env)) k) (remove k.key_hash s.keys);
        }))
        is (rotated-Inv s v k.key_hash _ k at free))

pub rotate_key-Inv :
    (sha256 : String → List ℕ) (env : Env) (tenant_id id : String) (s : Store)
    → Inv s
    → After Inv (rotate_key sha256 env tenant_id id s)
unfolding rotate_key
rotate_key-Inv sha256 env tenant_id id s v =
    elim (Option-cases (find (owned tenant_id id) (values s.keys))) [
      | inl e ↦ rw (e, rotate_key) v
      | inr (k, e) ↦
          let (at, mine) = find_entry s (owned tenant_id id) k v e in
          rw (e, rotate_key)
            (After-bind {B = Option CreatedApiKey} Inv (rotate_key_by_hash sha256 env k.key_hash id)
              (λ created. return (some created)) s
              (subst (λ i. After Inv (rotate_key_by_hash sha256 env k.key_hash i s))
                (owned-id tenant_id id k mine) (rotate_key_by_hash-Inv sha256 env k s at v))
              (λ created t w. w))
    ]

-- A record that the database returned for a hash.
pub load_key_by_hash-Found :
    (h : String) (db : Db) (k : KeyRecord)
    → load_key_by_hash h db ≡ some k
    → (k.key_hash ≡ h) × Found k (row_of h db.api_keys)
unfolding load_key_by_hash
load_key_by_hash-Found h db k e = go (row_of h db.api_keys) refl
  where
    go :
        (o : Option ApiKeyRow)
        → row_of h db.api_keys ≡ o
        → (k.key_hash ≡ h) × Found k (row_of h db.api_keys)
    go none p = absurd (cc (rw (p, load_key_by_hash) at e))
    go (some row) p =
        let decoded : key_record_from_row row ≡ some k = rw (p, load_key_by_hash) at e in
        rw p (
          sym (Agrees-id k row (ap (option_map forget) decoded)).1
              ∙ row_of-hash h db.api_keys row p,
          ap (option_map forget) decoded,
        )

-- A miss of the cache that the database answers.
module _ (s : Store) (v : Inv s) (h : String) (k : KeyRecord)
    (loaded : load_key_by_hash h s.db ≡ some k) where
  abbrev others : Dict String KeyRecord
  others = retain (λ (g, j). not (j.id == k.id)) s.keys

  others-Linked :
      (g : String) (o : Option KeyRecord)
      → lookup g others ≡ o
      → Linked g o (row_of g s.db.api_keys)
  others-Linked g none e = tt
  others-Linked g (some j) e =
      subst (λ o. Linked g o (row_of g s.db.api_keys))
        (lookup-retain (λ (g, j). not (j.id == k.id)) g s.keys j v.distinct e).0 (v.linked g)

  loaded-Linked : (g : String) → Linked g (lookup g (insert h k others)) (row_of g s.db.api_keys)
  loaded-Linked g = rw (lookup-insert h g k others) (elim (Bool-cases (h == g)) [
    | inl hit ↦ rw (hit, ← (string_eq.test_iff h g).0 hit) (load_key_by_hash-Found h s.db k loaded)
    | inr miss ↦ rw miss (others-Linked g (lookup g others) refl)
  ])

  pub loaded-Inv : Inv (record s { keys = insert h k others })
  loaded-Inv = record {
    distinct = insert-IsDistinct h k others (retain-IsDistinct _ s.keys v.distinct);
    unique = v.unique;
    sane = v.sane;
    linked = loaded-Linked;
  }

pub authenticate_miss-Inv :
    (env : Env) (h : String) (s : Store) → Inv s → Inv (authenticate_miss env h s).1
unfolding authenticate_miss
authenticate_miss-Inv env h s v = elim (Option-cases (answer env h s)) [
  | inl e ↦ rw (e, authenticate_miss) v
  | inr (k, e) ↦
      let loaded : load_key_by_hash h s.db ≡ some k = ground arith in
      elim (Bool-cases (is_active k env.now)) [
        | inl live ↦ rw (e, live, authenticate_miss) (loaded-Inv s v h k loaded)
        | inr dead ↦ rw (e, dead, authenticate_miss) v
      ]
]

pub authenticate-Inv :
    (sha256 : String → List ℕ) (env : Env) (raw_key : String) (s : Store)
    → Inv s
    → Inv (authenticate sha256 env raw_key s).1
unfolding authenticate
authenticate-Inv sha256 env raw_key s v =
    elim (Option-cases (filter_active env.now (lookup (hash_key sha256 raw_key) s.keys))) [
      | inl e ↦ rw (e, authenticate) (authenticate_miss-Inv env (hash_key sha256 raw_key) s v)
      | inr (k, e) ↦ rw (e, authenticate) v
    ]
