-- ===== src/Store/Origins/Ownership.antt =====
-- src/store.rs: which origins a tenant owns after a registration and after a revocation.
use rustspell_server.Base.{
  String, ◌≡◌, refl, ap, ◌∙◌, inl, inr, Bool, true, false, not, ◌&&◌, ◌||◌, Option, none, some,
  arith, find, Bool-cases, ◌==◌, string_eq,
}
use rustspell_server.Base.Dict.{
  Dict, option_map, lookup, insert, remove, lookup-insert, lookup-modify,
}
use rustspell_server.Store.Data.{OriginInfo, OriginRow, Store, Env, Outcome, ok, err, panic}
use rustspell_server.Store.After.{execute_cases}
use rustspell_server.Store.Origins.{
  or_default, add_owned, register_origin, drop_owned, revoke_found, revoke_origin, map_has,
  tenant_owns_origin,
}
use rustspell_server.Store.Origins.Registry.{
  contains_key-insert, contains_key-remove, contains_key-or_default,
}

map_has-remove :
    (o x : String) (d : Option (Dict String OriginInfo))
    → map_has o (option_map (remove x) d) ≡ (not (x == o) && map_has o d)
map_has-remove o x none = ground arith
map_has-remove o x (some m) = contains_key-remove o x m

drop_owned-tenant_owns_origin :
    (tenant_id origin other o : String) (s : Store)
    → tenant_owns_origin other o (drop_owned tenant_id origin s)
      ≡ (not ((tenant_id == other) && (origin == o)) && tenant_owns_origin other o s)
unfolding drop_owned tenant_owns_origin
drop_owned-tenant_owns_origin t x other o s =
    rw (lookup-modify t other (remove x) s.origins_by_tenant) (elim (Bool-cases (t == other)) [
      | inl hit ↦
          rw (hit, ← (string_eq.test_iff t other).0 hit)
            (map_has-remove o x (lookup t s.origins_by_tenant))
      | inr miss ↦ rw miss (ground arith)
    ])

add_owned-map_has :
    (t other o : String) (info : OriginInfo) (by : Dict String (Dict String OriginInfo))
    → map_has o (lookup other (add_owned t info by))
      ≡ (((t == other) && (info.origin == o)) || map_has o (lookup other by))
unfolding add_owned
add_owned-map_has t other o info by =
    rw (lookup-insert t other (insert info.origin info (or_default (lookup t by))) by)
      (elim (Bool-cases (t == other)) [
        | inl hit ↦
            rw (hit, ← (string_eq.test_iff t other).0 hit)
              (contains_key-insert o info.origin info (or_default (lookup t by))
                ∙ ap (λ c. (info.origin == o) || c) (contains_key-or_default o (lookup t by)))
        | inr miss ↦ rw miss (ground arith)
      ])

-- What a registration has done, by its outcome.
abbrev pub Registers : String → String → Store → Outcome OriginInfo → Type 0
Registers tenant_id origin s (ok info t) =
    (other o : String)
    → tenant_owns_origin other o t
      ≡ (((tenant_id == other) && (origin == o)) || tenant_owns_origin other o s)
Registers tenant_id origin s (err e t) = t ≡ s
Registers tenant_id origin s (panic e) = ⊥

-- A registration that succeeds gives the tenant that origin, and no tenant anything else; one that
-- fails changes nothing.
pub register_origin-Registers :
    (env : Env) (tenant_id origin : String) (s : Store)
    → Registers tenant_id origin s (register_origin env tenant_id origin s)
unfolding register_origin tenant_owns_origin
register_origin-Registers env tenant_id origin s =
    execute_cases (Registers tenant_id origin s) (env.sql_ok 0) _ _ s (λ e. refl)
      λ db done other o. add_owned-map_has tenant_id other o _ s.origins_by_tenant

abbrev pub row_for : String → String → Store → Option OriginRow
row_for tenant_id id s = find (λ r. r.id == id && r.tenant_id == tenant_id) s.db.tenant_origins

-- What a revocation has done, by its outcome.
abbrev pub Revokes : String → String → Store → Outcome Bool → Type 0
Revokes tenant_id id s (ok true t) =
    (row : OriginRow) × (row_for tenant_id id s ≡ some row)
    × ((other o : String)
        → tenant_owns_origin other o t
          ≡ (not ((tenant_id == other) && (row.origin == o)) && tenant_owns_origin other o s))
Revokes tenant_id id s (ok false t) = (row_for tenant_id id s ≡ none) × (t ≡ s)
Revokes tenant_id id s (err e t) = t ≡ s
Revokes tenant_id id s (panic e) = ⊥

-- A revocation that says `true` found a row of that id and tenant, and takes that row's origin from
-- that tenant and nothing from any other; one that says `false` found none, and then, as with an
-- error, nothing changes.
pub revoke_origin-Revokes :
    (env : Env) (tenant_id id : String) (s : Store)
    → Revokes tenant_id id s (revoke_origin env tenant_id id s)
unfolding revoke_origin revoke_found tenant_owns_origin
revoke_origin-Revokes env tenant_id id s = elim (Bool-cases (env.sql_ok 0)) [
  | inr failed ↦ rw (failed, revoke_origin) refl
  | inl reached ↦ rw (reached, revoke_origin) (go (row_for tenant_id id s) refl)
]
  where
    go :
        (row : Option OriginRow)
        → row_for tenant_id id s ≡ row
        → Revokes tenant_id id s (revoke_found env tenant_id id row s)
    go none e = (e, refl)
    go (some row) e =
        execute_cases (Revokes tenant_id id s) (env.sql_ok 1) _ _ s (λ m. refl)
          λ db done. (
            row,
            e,
            λ other o.
                drop_owned-tenant_owns_origin tenant_id row.origin other o (record s { db = db }),
          )
