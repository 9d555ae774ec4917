-- ===== src/Store/Open/Reload.antt =====
-- src/store.rs, the start: the cache of keys that the table fills is the table, read by hash.
use rustspell_server.Base.{
  ℕ, String, Bool, ◌≡◌, refl, ap, sym, ◌∙◌, subst, ◌⊎◌, true, false, inl, inr, Bool-cases,
  Option-cases, Option, none, some, List, [], ◌∷◌, All, arith, ◌==◌, string_eq, option_eq,
}
use rustspell_server.Base.Dict.{option_map, lookup, insert, lookup-insert}
use rustspell_server.Base.Dict.Distinct.{IsDistinct, insert-IsDistinct}
use rustspell_server.Store.Data.{
  Role, parse_role, KeyRecord, ApiKeyRow, OriginRow, Db, Store, Env, ok, fetch, key_record_from_row,
}
use rustspell_server.Store.After.{After, After-bind, on_ok, bind-eq-ok}
use rustspell_server.Store.Keys.{load_key_by_hash}
use rustspell_server.Store.Keys.Lookup.{row_of, IsUnique, Differs-row_of}
use rustspell_server.Store.Keys.Invariant.{IsSane, Linked, Inv, forget, Agrees-id}
use rustspell_server.Store.Keys.Rotation.{load_key_by_hash-Found}
use rustspell_server.Store.Open.{
  reload_keys, reload_tenants, reload_origins, reload_dictionaries, reload_rest, reload_caches,
  unloaded,
}

-- What is cached at a hash after the rows: what their row of that hash reads back as, or the old.
abbrev read_back : Option ApiKeyRow → Option KeyRecord → Option KeyRecord
read_back none old = old
read_back (some row) old = key_record_from_row row

record Loaded (rows : List ApiKeyRow) (s t : Store) : Type 0 where
  db_is : t.db ≡ s.db
  distinct : IsDistinct s.keys → IsDistinct t.keys
  found : (h : String) → lookup h t.keys ≡ read_back (row_of h rows) (lookup h s.keys)

-- One row that decodes, then the rest.
cons-Loaded :
    (row : ApiKeyRow) (rows : List ApiKeyRow) (k : KeyRecord) (s t : Store)
    → IsUnique (row ∷ rows)
    → key_record_from_row row ≡ some k
    → Loaded rows (record s { keys = insert k.key_hash k s.keys }) t
    → Loaded (row ∷ rows) s t
cons-Loaded row rows k s t u e l = record {
  db_is = l.db_is;
  distinct = λ d. l.distinct (insert-IsDistinct k.key_hash k s.keys d);
  found = λ h. found_at h (Bool-cases (row.key_hash == h));
}
  where
    same : row.key_hash ≡ k.key_hash
    same = (Agrees-id k row (ap (option_map forget) e)).1

    found_at :
        (h : String)
        → ((row.key_hash == h) ≡ true) ⊎ ((row.key_hash == h) ≡ false)
        → lookup h t.keys ≡ read_back (row_of h (row ∷ rows)) (lookup h s.keys)
    found_at h (inl hit) = ground (
      arith,
      l.found h,
      lookup-insert k.key_hash h k s.keys,
      same,
      string_eq.test_iff row.key_hash h,
      Differs-row_of row rows u.0,
    )
    found_at h (inr miss) = ground (arith, l.found h, lookup-insert k.key_hash h k s.keys, same)

reload_keys-Loaded :
    (rows : List ApiKeyRow) (s t : Store)
    → IsUnique rows
    → reload_keys rows s ≡ ok tt t
    → Loaded rows s t
unfolding reload_keys
reload_keys-Loaded [] s t u e =
    on_ok (λ _ t. Loaded [] s t) e (record { db_is = refl; distinct = λ d. d; found = λ h. refl })
reload_keys-Loaded (row ∷ rows) s t u e = elim (Option-cases (key_record_from_row row)) [
  | inl p ↦ absurd (cc (rw (p, reload_keys) at e))
  | inr (k, p) ↦
      cons-Loaded row rows k s t u p (reload_keys-Loaded rows _ t u.1 (rw (p, reload_keys) at e))
]

fetch-eq-ok {ℓ} :
    {A : Type ℓ} (reached : Bool) (f : Db → A) (s : Store) (a : A) (t : Store)
    → fetch reached f s ≡ ok a t
    → (f s.db ≡ a) × (s ≡ t)
fetch-eq-ok false f s a t e = absurd (cc)
fetch-eq-ok true f s a t e = (cc, cc)

-- The other caches leave the tables and the cache of keys alone.
Stays : Store → Store → Type 0
Stays s t = (t.db ≡ s.db) × (t.keys ≡ s.keys)

reload_origins-Stays : (rows : List OriginRow) (s : Store) → Stays s (reload_origins rows s)
unfolding reload_origins Stays
reload_origins-Stays [] s = (refl, refl)
reload_origins-Stays (row ∷ rows) s = reload_origins-Stays rows _

fetch-After {ℓ κ} :
    {A : Type ℓ} (P : Store → Type κ) (reached : Bool) (f : Db → A) (s : Store)
    → P s
    → After P (fetch reached f s)
fetch-After P false f s h = h
fetch-After P true f s h = h

reload_rest-Stays : (env : Env) (s : Store) → After (Stays s) (reload_rest env s)
unfolding Stays
reload_rest-Stays env s =
    After-bind (Stays s) (fetch (env.sql_ok 1) (λ db. db.tenants)) _ s
      (fetch-After (Stays s) (env.sql_ok 1) (λ db. db.tenants) s (refl, refl))
      λ rows t p.
        After-bind (Stays s) (fetch (env.sql_ok 2) (λ db. db.tenant_origins)) _ _
          (fetch-After (Stays s) (env.sql_ok 2) (λ db. db.tenant_origins) _ p)
          λ origins u q.
            After-bind (Stays s) (fetch (env.sql_ok 3) (λ db. db.dictionaries)) _ _
              (fetch-After (Stays s) (env.sql_ok 3) (λ db. db.dictionaries) _
                (let o = reload_origins-Stays origins u in (o.0 ∙ q.0, o.1 ∙ q.1)))
              λ dictionaries w r. r

Loaded-Stays :
    (rows : List ApiKeyRow) (s v t : Store) → Loaded rows s v → Stays v t → Loaded rows s t
unfolding Stays
Loaded-Stays rows s v t l p = record {
  db_is = p.0 ∙ l.db_is;
  distinct = λ d. subst IsDistinct (sym p.1) (l.distinct d);
  found = λ h. ap (lookup h) p.1 ∙ l.found h;
}

module _ (env : Env) (db : Db) (t : Store) (unique : IsUnique db.api_keys)
    (done : reload_caches env (unloaded db) ≡ ok tt t) where
  reload_caches-Loaded : Loaded db.api_keys (unloaded db) t
  unfolding reload_caches
  reload_caches-Loaded =
      let (rows, s, read, later) =
        bind-eq-ok (fetch (env.sql_ok 0) (λ d. d.api_keys)) _ (unloaded db) tt t done in
      let (these, same) = fetch-eq-ok (env.sql_ok 0) (λ d. d.api_keys) (unloaded db) rows s read in
      let (u, v, loaded, rest) = bind-eq-ok (reload_keys rows) _ s tt t later in
      let before : Loaded db.api_keys (unloaded db) v =
        reload_keys-Loaded db.api_keys (unloaded db) v unique (cc) in
      Loaded-Stays db.api_keys (unloaded db) v t before
        (subst (After (Stays v)) rest (reload_rest-Stays env v))

  -- After a start, the cache of keys is the table, read by hash.
  pub reload_caches-load_key_by_hash : (h : String) → lookup h t.keys ≡ load_key_by_hash h db
  unfolding load_key_by_hash lookup
  reload_caches-load_key_by_hash h = elim (Option-cases (row_of h db.api_keys)) [
    | inl e ↦ rw (reload_caches-Loaded.found h, e, load_key_by_hash) refl
    | inr (row, e) ↦ rw (reload_caches-Loaded.found h, e, load_key_by_hash) refl
  ]

  pub reload_caches-Inv : All IsSane db.api_keys → Inv t
  unfolding lookup
  reload_caches-Inv sane = record {
    distinct = reload_caches-Loaded.distinct tt;
    unique = rw reload_caches-Loaded.db_is unique;
    sane = rw reload_caches-Loaded.db_is sane;
    linked = λ h.
        rw (reload_caches-load_key_by_hash h, reload_caches-Loaded.db_is)
          (loaded-Linked h (load_key_by_hash h db) refl);
  }
    where
      loaded-Linked :
          (h : String) (o : Option KeyRecord)
          → load_key_by_hash h db ≡ o
          → Linked h o (row_of h db.api_keys)
      loaded-Linked h none e = tt
      loaded-Linked h (some k) e = load_key_by_hash-Found h db k e

  pub reload_caches-db : t.db ≡ db
  reload_caches-db = reload_caches-Loaded.db_is

-- A row whose role is one of the three, as the CHECK of the table demands.
abbrev pub Decodes : ApiKeyRow → Type 0
Decodes row = (r : Role) × (parse_role row.role ≡ some r)

decoded : (row : ApiKeyRow) → Decodes row → (k : KeyRecord) × (key_record_from_row row ≡ some k)
unfolding key_record_from_row
decoded row d = elim (Option-cases (key_record_from_row row)) [
  | inl e ↦ absurd (cc (rw (d.1, key_record_from_row) at e))
  | inr (k, e) ↦ (k, e)
]

reload_keys_total :
    (rows : List ApiKeyRow) (s : Store)
    → All Decodes rows
    → (t : Store) × (reload_keys rows s ≡ ok tt t)
unfolding reload_keys
reload_keys_total [] s d = (s, refl)
reload_keys_total (row ∷ rows) s d =
    let (k, e) = decoded row d.0 in
    let (t, f) = reload_keys_total rows (record s { keys = insert k.key_hash k s.keys }) d.1 in
    (t, rw (e, reload_keys) f)

abbrev with_rest : Store → Store
with_rest s =
    let u =
      reload_origins s.db.tenant_origins
        (record s { tenants = reload_tenants s.db.tenants s.tenants }) in
    record u { dictionaries = reload_dictionaries u.db.dictionaries u.dictionaries }

reload_rest_total :
    (env : Env) (s : Store)
    → ((n : ℕ) → env.sql_ok n ≡ true)
    → reload_rest env s ≡ ok tt (with_rest s)
reload_rest_total env s up = rw (up 1, up 2, up 3) refl

-- A start from a database that answers, and whose roles are all known, loads.
pub reload_caches_total :
    (env : Env) (db : Db)
    → ((n : ℕ) → env.sql_ok n ≡ true)
    → All Decodes db.api_keys
    → (t : Store) × (reload_caches env (unloaded db) ≡ ok tt t)
unfolding reload_caches reload_keys
reload_caches_total env db up d =
    let (u, e) = reload_keys_total db.api_keys (unloaded db) d in
    (with_rest u, rw (up 0, e) (reload_rest_total env u up))
