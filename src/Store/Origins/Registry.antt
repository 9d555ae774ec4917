-- ===== src/Store/Origins/Registry.antt =====
-- src/store.rs: the set of all origins, which the CORS layer reads, and the maps by tenant, which
-- the origin check reads, agree; and a tenant's calls reach its own origins only.
use rustspell_server.Base.{
  String, ◌≡◌, refl, sym, ap, ◌∙◌, inl, inr, Bool, true, false, not, ◌&&◌, ◌||◌, Option, none, some,
  List, [], ◌∷◌, arith, find, Bool-cases, ◌==◌, string_eq,
}
use rustspell_server.Base.Dict.{
  Dict, lookup, insert, remove, modify, contains_key, lookup-insert, lookup-remove,
}
use rustspell_server.Store.Data.{OriginInfo, OriginRow, Store, Env}
use rustspell_server.Store.After.{After, execute-After}
use rustspell_server.Store.Origins.{
  member, set_insert, set_remove, or_default, add_owned, register_origin, still_owned, drop_owned,
  revoke_found, revoke_origin, is_registered_origin, map_has,
}

-- The set of all origins holds exactly the origins that some tenant has.
abbrev pub Agrees : Store → Type 0
Agrees s = (o : String) → is_registered_origin o s ≡ still_owned o s.origins_by_tenant

member-set_insert :
    (o x : String) (xs : List String) → member o (set_insert x xs) ≡ ((x == o) || member o xs)
member-set_insert o x xs = ground (arith, string_eq.test_iff x o)

member-set_remove :
    (o x : String) (xs : List String) → member o (set_remove x xs) ≡ (not (x == o) && member o xs)
member-set_remove o x [] = ground arith
member-set_remove o x (y ∷ ys) = ground (
  arith,
  string_eq.test_iff y x,
  string_eq.test_iff y o,
  string_eq.test_iff x o,
  member-set_remove o x ys,
)

pub contains_key-insert :
    (o k : String) (v : OriginInfo) (m : Dict String OriginInfo)
    → contains_key o (insert k v m) ≡ ((k == o) || contains_key o m)
contains_key-insert o k v m = rw (lookup-insert k o v m) (ground arith)

pub contains_key-remove :
    (o k : String) (m : Dict String OriginInfo)
    → contains_key o (remove k m) ≡ (not (k == o) && contains_key o m)
contains_key-remove o k m = rw (lookup-remove k o m) (ground arith)

-- A tenant's map is replaced by one that has `o` besides, or not.
insert-still_owned :
    (t o : String) (n : Dict String OriginInfo) (c : Bool)
    (by : Dict String (Dict String OriginInfo))
    → contains_key o n ≡ (c || map_has o (lookup t by))
    → still_owned o (insert t n by) ≡ (c || still_owned o by)
unfolding insert lookup still_owned
insert-still_owned t o n c [] p = ground arith
insert-still_owned t o n c ((k, m) ∷ by) p = elim (Bool-cases (k == t)) [
  | inl hit ↦ rw hit (ground arith)
  | inr miss ↦ rw miss (ground (arith, insert-still_owned t o n c by))
]

pub contains_key-or_default :
    (o : String) (d : Option (Dict String OriginInfo)) → contains_key o (or_default d) ≡ map_has o d
unfolding lookup
contains_key-or_default o none = refl
contains_key-or_default o (some m) = refl

add_owned-still_owned :
    (t o : String) (info : OriginInfo) (by : Dict String (Dict String OriginInfo))
    → still_owned o (add_owned t info by) ≡ ((info.origin == o) || still_owned o by)
unfolding add_owned
add_owned-still_owned t o info by =
    insert-still_owned t o (insert info.origin info (or_default (lookup t by))) (info.origin == o)
      by
      (contains_key-insert o info.origin info (or_default (lookup t by))
        ∙ ap (λ c. (info.origin == o) || c) (contains_key-or_default o (lookup t by)))

-- Taking an origin from one tenant's map does not touch the other origins.
remove-still_owned :
    (t x o : String) (by : Dict String (Dict String OriginInfo))
    → (x == o) ≡ false
    → still_owned o (modify t (remove x) by) ≡ still_owned o by
unfolding modify still_owned
remove-still_owned t x o [] n = refl
remove-still_owned t x o ((k, m) ∷ by) n = elim (Bool-cases (k == t)) [
  | inl hit ↦ rw hit (ground (arith, contains_key-remove o x m))
  | inr miss ↦ rw miss (ground (arith, remove-still_owned t x o by n))
]

-- Where the set of all origins holds exactly the origins that some tenant has, it does so after a
-- registration, whichever way that ends.
pub register_origin-Agrees :
    (env : Env) (tenant_id origin : String) (s : Store)
    → Agrees s
    → After Agrees (register_origin env tenant_id origin s)
unfolding register_origin is_registered_origin
register_origin-Agrees env tenant_id origin s a =
    execute-After Agrees (env.sql_ok 0) _ _ s a λ db done o.
      member-set_insert o origin s.origins_any
      ∙ ap (λ c. (origin == o) || c) (a o)
      ∙ sym (add_owned-still_owned tenant_id o _ s.origins_by_tenant)

still_owned_before :
    (t x o : String) (by : Dict String (Dict String OriginInfo))
    → still_owned o (modify t (remove x) by) ≡ true
    → still_owned o by ≡ true
unfolding modify still_owned
still_owned_before t x o [] h = h
still_owned_before t x o ((k, m) ∷ by) h = elim (Bool-cases (k == t)) [
  | inl hit ↦ ground (arith, contains_key-remove o x m)
  | inr miss ↦ ground (arith, still_owned_before t x o by)
]

drop_owned-Agrees :
    (tenant_id origin : String) (s : Store) → Agrees s → Agrees (drop_owned tenant_id origin s)
unfolding drop_owned is_registered_origin
drop_owned-Agrees t x s a o =
    elim (Bool-cases (still_owned x (modify t (remove x) s.origins_by_tenant))) [
      | inl kept ↦
          rw (kept, drop_owned)
            (ground (
              arith,
              a o,
              string_eq.test_iff x o,
              still_owned_before t x o s.origins_by_tenant,
              remove-still_owned t x o s.origins_by_tenant,
            ))
      | inr gone ↦
          rw (gone, drop_owned)
            (ground (
              arith,
              a o,
              string_eq.test_iff x o,
              member-set_remove o x s.origins_any,
              remove-still_owned t x o s.origins_by_tenant,
            ))
    ]

-- Where the set of all origins holds exactly the origins that some tenant has, it does so after a
-- revocation, whichever way that ends.
pub revoke_origin-Agrees :
    (env : Env) (tenant_id id : String) (s : Store)
    → Agrees s
    → After Agrees (revoke_origin env tenant_id id s)
unfolding revoke_origin revoke_found is_registered_origin
revoke_origin-Agrees env tenant_id id s a = elim (Bool-cases (env.sql_ok 0)) [
  | inr failed ↦ rw (failed, revoke_origin) a
  | inl reached ↦
      rw (reached, revoke_origin)
        (go (find (λ r. r.id == id && r.tenant_id == tenant_id) s.db.tenant_origins))
]
  where
    go : (row : Option OriginRow) → After Agrees (revoke_found env tenant_id id row s)
    go none = a
    go (some row) =
        execute-After Agrees (env.sql_ok 1) _ _ s a
          λ db done. drop_owned-Agrees tenant_id row.origin (record s { db = db }) a
