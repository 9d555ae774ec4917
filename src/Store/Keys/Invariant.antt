-- ===== src/Store/Keys/Invariant.antt =====
-- src/store.rs, API keys: the cache holds what the database would read back, up to `last_used_at`,
-- which is written in the background. Every operation keeps it so.
use rustspell_server.Base.{
  ℕ, ◌^◌, ◌<◌, String, ◌≡◌, refl, ap, ◌≢◌, inl, inr, false, ◌||◌, Option, none, some, List, [], ◌∷◌,
  ◌++◌, arith, any, All, All-append, subst, Bool-cases, ◌==◌, string_eq, option_eq,
}
use rustspell_server.Base.Int.{ℤ, pos, negsuc}
use rustspell_server.Base.Dict.{option_map, lookup, insert, lookup-insert}
use rustspell_server.Base.Dict.Distinct.{IsDistinct, insert-IsDistinct}
use rustspell_server.Store.Data.{
  Role, platform, admin, standard, as_str, parse_role, KeyRecord, ApiKeyRow, Db, Store, Env,
  key_record_from_row, bind_opt, then_some, coalesce, coalesce_text, non_empty,
}
use rustspell_server.Store.After.{After, execute-After}
use rustspell_server.Store.Keys.{hash_key, insert_api_key, api_key_row, create_key_internal}
use rustspell_server.Store.Keys.Lookup.{row_of, IsUnique, append-IsUnique, row_of-append}

abbrev pub FitsI64 : Option ℕ → Type 0
FitsI64 none = Unit {0}
FitsI64 (some v) = v < 2 ^ 63

-- A record that the columns can hold: times below 2 ^ 63, and no empty tenant id.
pub record IsStorable (k : KeyRecord) : Type 0 where
  pub created_fits : k.created_at < 2 ^ 63
  pub expires_fits : FitsI64 k.expires_at
  pub tenant_named : k.tenant_id ≢ some ""

then_some-bind_opt : (o : Option ℕ) → FitsI64 o → then_some (coalesce (bind_opt o)) ≡ o
then_some-bind_opt none h = refl
then_some-bind_opt (some v) h = ground arith

parse_role-as_str : (r : Role) → parse_role (as_str r) ≡ some r
unfolding parse_role as_str
parse_role-as_str platform = refl
parse_role-as_str admin = refl
parse_role-as_str standard = refl

non_empty-coalesce_text : (t : Option String) → t ≢ some "" → non_empty (coalesce_text t) ≡ t
non_empty-coalesce_text none h = refl
non_empty-coalesce_text (some t) h = ground (arith, string_eq.test_iff t "")

-- A row that is inserted reads back as the record that it was written from, where that record's
-- times are below 2^63, its tenant id is not the empty text, and it was neither used nor revoked.
pub key_record_from_row-api_key_row :
    (k : KeyRecord)
    → IsStorable k
    → k.last_used_at ≡ none
    → k.revoked_at ≡ none
    → key_record_from_row (api_key_row k) ≡ some k
unfolding key_record_from_row api_key_row
key_record_from_row-api_key_row k v l r = ground (
  arith,
  parse_role-as_str k.role,
  then_some-bind_opt k.expires_at v.expires_fits,
  non_empty-coalesce_text k.tenant_id v.tenant_named,
)

abbrev pub forget : KeyRecord → KeyRecord
forget k = record k { last_used_at = none }

-- The row reads back as the record, but for the time of its last use.
abbrev pub Agrees : KeyRecord → ApiKeyRow → Type 0
Agrees k row = option_map forget (key_record_from_row row) ≡ some (forget k)

-- No revocation time in the table is negative, which would read back as no revocation.
abbrev pub SaneTime : Option ℤ → Type 0
SaneTime none = Unit {0}
SaneTime (some (pos n)) = Unit {0}
SaneTime (some (negsuc n)) = ⊥

abbrev pub IsSane : ApiKeyRow → Type 0
IsSane row = SaneTime row.revoked_at

abbrev pub Found : KeyRecord → Option ApiKeyRow → Type 0
Found k none = ⊥
Found k (some row) = Agrees k row

-- The cache's entry at a hash, beside the row of that hash.
abbrev pub Linked : String → Option KeyRecord → Option ApiKeyRow → Type 0
Linked h none row = Unit {0}
Linked h (some k) row = (k.key_hash ≡ h) × Found k row

pub record Inv (s : Store) : Type 0 where
  pub distinct : IsDistinct s.keys
  pub unique : IsUnique s.db.api_keys
  pub sane : All IsSane s.db.api_keys
  pub linked : (h : String) → Linked h (lookup h s.keys) (row_of h s.db.api_keys)

pub Agrees-id :
    (k : KeyRecord) (row : ApiKeyRow) → Agrees k row → (row.id ≡ k.id) × (row.key_hash ≡ k.key_hash)
unfolding key_record_from_row
Agrees-id k row a = ground arith

pub insert_api_key-eq :
    (row : ApiKeyRow) (db db' : Db)
    → insert_api_key row db ≡ some db'
    → (any (λ r. r.id == row.id || r.key_hash == row.key_hash) db.api_keys ≡ false)
      × (db' ≡ record db { api_keys = db.api_keys ++ (row ∷ []) })
unfolding insert_api_key
insert_api_key-eq row db db' h = ground arith

-- The entry and the row that a hash of the cache leads to.
pub record Entry (s : Store) (h : String) (k : KeyRecord) : Type 0 where
  pub row : ApiKeyRow
  pub at_hash : row_of h s.db.api_keys ≡ some row
  pub hash_is : k.key_hash ≡ h
  pub agrees : Agrees k row
  pub id_is : row.id ≡ k.id

pub entry :
    (s : Store) (h : String) (k : KeyRecord) → Inv s → lookup h s.keys ≡ some k → Entry s h k
entry s h k v e =
    go (row_of h s.db.api_keys) refl
      (subst (λ o. Linked h o (row_of h s.db.api_keys)) e (v.linked h))
  where
    go : (o : Option ApiKeyRow) → row_of h s.db.api_keys ≡ o → Linked h (some k) o → Entry s h k
    go none p l = absurd l.1
    go (some row) p l = record {
      row = row;
      at_hash = p;
      hash_is = l.0;
      agrees = l.1;
      id_is = (Agrees-id k row l.1).0;
    }

-- A creation, once its statement has passed.
module _ (s : Store) (k : KeyRecord) (v : Inv s) (st : IsStorable k)
    (no_use : k.last_used_at ≡ none) (live : k.revoked_at ≡ none)
    (free : any (λ r. r.id == k.id || r.key_hash == k.key_hash) s.db.api_keys ≡ false) where
  created-Linked :
      (h : String)
      → Linked h
          (lookup h (insert k.key_hash k s.keys))
          (row_of h (s.db.api_keys ++ (api_key_row k ∷ [])))
  unfolding api_key_row
  created-Linked h =
      rw (lookup-insert k.key_hash h k s.keys, row_of-append h (api_key_row k) s.db.api_keys free)
        (elim (Bool-cases (k.key_hash == h)) [
          | inl hit ↦ rw hit (
            (string_eq.test_iff k.key_hash h).0 hit,
            ap (option_map forget) (key_record_from_row-api_key_row k st no_use live),
          )
          | inr miss ↦ rw miss (v.linked h)
        ])

  created-Inv : Inv (record s {
    db = record s.db { api_keys = s.db.api_keys ++ (api_key_row k ∷ []) };
    keys = insert k.key_hash k s.keys;
  })
  unfolding api_key_row
  created-Inv = record {
    distinct = insert-IsDistinct k.key_hash k s.keys v.distinct;
    unique = append-IsUnique (api_key_row k) s.db.api_keys free v.unique;
    sane = All-append IsSane s.db.api_keys (api_key_row k ∷ []) v.sane (tt, tt);
    linked = created-Linked;
  }

pub create_key_internal-Inv :
    (sha256 : String → List ℕ) (env : Env) (tenant_id : Option String) (label : String)
    (role : Role) (expires_at : Option ℕ) (s : Store)
    → env.now < 2 ^ 63
    → FitsI64 expires_at
    → tenant_id ≢ some ""
    → Inv s
    → After Inv (create_key_internal sha256 env tenant_id label role expires_at s)
unfolding create_key_internal api_key_row hash_key
create_key_internal-Inv sha256 env tenant_id label role expires_at s now_fits exp_fits named v =
    execute-After Inv (env.sql_ok 0) _ _ s v λ db e.
      let (free, is) = insert_api_key-eq _ s.db db e in
      rw is (
        created-Inv s _ v
          (record { created_fits = now_fits; expires_fits = exp_fits; tenant_named = named }) refl
          refl free)
