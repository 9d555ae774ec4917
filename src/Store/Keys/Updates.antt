-- ===== src/Store/Keys/Updates.antt =====
-- src/store.rs, API keys: an update of one row and of its cached entry keeps the invariant.
use mathlib.Core.Option.{some-injective}
use rustspell_server.Base.{
  ℕ, ◌^◌, ◌<◌, String, ◌≡◌, refl, sym, ◌∙◌, inl, inr, Bool, true, false, ◌&&◌, Option, none, some,
  map, arith, find, All-map, find-All, subst, if◌then◌else◌, Bool-cases, Option-cases, is_none,
  ◌==◌, string_eq, option_eq,
}
use rustspell_server.Base.Int.{as_i64}
use rustspell_server.Base.Dict.{option_map, values, lookup, modify, lookup-modify}
use rustspell_server.Base.Dict.Distinct.{modify-IsDistinct, find-values}
use rustspell_server.Store.Data.{KeyRecord, ApiKeyRow, Store, Env, key_record_from_row}
use rustspell_server.Store.After.{After, execute-After}
use rustspell_server.Store.Keys.{set_revoked_at, owned, revoke_record, revoke_key, touch_last_used}
use rustspell_server.Store.Keys.Lookup.{row_of, map-IsUnique, row_of-map, row_of_inj}
use rustspell_server.Store.Keys.Invariant.{Agrees, IsSane, Found, Linked, Inv, Entry, entry}

-- Another entry's row is another row.
pub entry-ne :
    (s : Store) (v : Inv s) (g h : String) (j k : KeyRecord) (y : Entry s g j) (x : Entry s h k)
    → (h == g) ≡ false
    → (y.row.id == k.id) ≡ false
entry-ne s v g h j k y x n = elim (Bool-cases (y.row.id == k.id)) [
  | inl hit ↦
      let same : h ≡ g =
        row_of_inj h g s.db.api_keys x.row y.row v.unique x.at_hash y.at_hash
          (x.id_is ∙ sym ((string_eq.test_iff y.row.id k.id).0 hit)) in
      cc ((string_eq.test_iff h g).1 same)
  | inr miss ↦ miss
]

-- Two entries of one id are one entry.
pub entry_inj :
    (s : Store) (g h : String) (j k : KeyRecord)
    → Inv s
    → lookup g s.keys ≡ some j
    → lookup h s.keys ≡ some k
    → j.id ≡ k.id
    → g ≡ h
entry_inj s g h j k v e f p =
    let y = entry s g j v e in
    let x = entry s h k v f in
    row_of_inj g h s.db.api_keys y.row x.row v.unique y.at_hash x.at_hash
      (y.id_is ∙ p ∙ sym x.id_is)

-- An update `f` of the row of one cached key, beside an update `u` of its entry.
module _ (s : Store) (v : Inv s) (h : String) (k : KeyRecord) (at : lookup h s.keys ≡ some k)
    (f : ApiKeyRow → ApiKeyRow) (u : KeyRecord → KeyRecord)
    (same_id : (r : ApiKeyRow) → (f r).id ≡ r.id)
    (same_hash : (r : ApiKeyRow) → (f r).key_hash ≡ r.key_hash)
    (other : (r : ApiKeyRow) → (r.id == k.id) ≡ false → f r ≡ r)
    (keeps_hash : (u k).key_hash ≡ k.key_hash)
    (mine : (r : ApiKeyRow)
      → row_of h s.db.api_keys ≡ some r
      → r.id ≡ k.id
      → Agrees k r
      → Agrees (u k) (f r)) where
  update-Linked_other :
      (g : String) (o : Option KeyRecord)
      → lookup g s.keys ≡ o
      → (h == g) ≡ false
      → Linked g o (option_map f (row_of g s.db.api_keys))
  update-Linked_other g none e n = tt
  update-Linked_other g (some j) e n =
      let y = entry s g j v e in
      let x = entry s h k v at in
      rw (y.at_hash, other y.row (entry-ne s v g h j k y x n)) (y.hash_is, y.agrees)

  update-Linked :
      (g : String) → Linked g (lookup g (modify h u s.keys)) (row_of g (map f s.db.api_keys))
  update-Linked g =
      rw (lookup-modify h g u s.keys, row_of-map f same_id same_hash g s.db.api_keys)
        (elim (Bool-cases (h == g)) [
          | inl hit ↦ rw (hit, at, ← (string_eq.test_iff h g).0 hit) here
          | inr miss ↦ rw miss (update-Linked_other g (lookup g s.keys) refl miss)
        ])
    where
      here : ((u k).key_hash ≡ h) × Found (u k) (option_map f (row_of h s.db.api_keys))
      here =
          let x = entry s h k v at in
          rw (x.at_hash) (keeps_hash ∙ x.hash_is, mine x.row x.at_hash x.id_is x.agrees)

  update-Inv :
      ((r : ApiKeyRow) → IsSane r → IsSane (f r))
      → Inv (record s {
        db = record s.db { api_keys = map f s.db.api_keys };
        keys = modify h u s.keys;
      })
  update-Inv keeps_sane = record {
    distinct = modify-IsDistinct h u s.keys v.distinct;
    unique = map-IsUnique f same_id same_hash s.db.api_keys v.unique;
    sane = All-map IsSane f keeps_sane s.db.api_keys v.sane;
    linked = update-Linked;
  }

-- A key that a search of the cache finds is the entry at its hash.
pub find_entry :
    (s : Store) (p : KeyRecord → Bool) (k : KeyRecord)
    → Inv s
    → find p (values s.keys) ≡ some k
    → (lookup k.key_hash s.keys ≡ some k) × (p k ≡ true)
find_entry s p k v e =
    let (h, at, holds) = find-values p s.keys k v.distinct e in
    (subst (λ g. lookup g s.keys ≡ some k) (sym (entry s h k v at).hash_is) at, holds)

abbrev pub revoke_row : ℕ → String → ApiKeyRow → ApiKeyRow
revoke_row now id r =
    if r.id == id && is_none r.revoked_at then record r { revoked_at = some (as_i64 now) } else r

pub revoke-Agrees :
    (now : ℕ) (k : KeyRecord) (r : ApiKeyRow)
    → now < 2 ^ 63
    → IsSane r
    → r.id ≡ k.id
    → Agrees k r
    → Agrees (revoke_record now k) (revoke_row now k.id r)
unfolding key_record_from_row
revoke-Agrees now k r fits i e a = ground (arith, string_eq.test_iff r.id k.id)

-- The states that a revocation leaves.
pub revoked-Inv :
    (s : Store) (v : Inv s) (now : ℕ) (k : KeyRecord)
    → now < 2 ^ 63
    → lookup k.key_hash s.keys ≡ some k
    → Inv (record s {
      db = record s.db { api_keys = map (revoke_row now k.id) s.db.api_keys };
      keys = modify k.key_hash (revoke_record now) s.keys;
    })
revoked-Inv s v now k fits at =
    update-Inv s v k.key_hash k at (revoke_row now k.id) (revoke_record now) (λ r. ground arith)
      (λ r. ground arith) (λ r n. ground arith) (ground arith)
      (λ r here e a.
        revoke-Agrees now k r fits (find-All IsSane _ s.db.api_keys r v.sane here).0 e a)
      (λ r i. ground arith)

pub owned-id : (tenant_id id : String) (k : KeyRecord) → owned tenant_id id k ≡ true → k.id ≡ id
owned-id tenant_id id k h = ground (arith, string_eq.test_iff k.id id)

pub revoke_key-Inv :
    (env : Env) (tenant_id id : String) (s : Store)
    → env.now < 2 ^ 63
    → Inv s
    → After Inv (revoke_key env tenant_id id s)
unfolding revoke_key set_revoked_at
revoke_key-Inv env tenant_id id s fits v =
    elim (Option-cases (find (owned tenant_id id) (values s.keys))) [
      | inl e ↦ rw (e, revoke_key) v
      | inr (k, e) ↦
          let (at, mine) = find_entry s (owned tenant_id id) k v e in
          rw (e, revoke_key)
            (execute-After Inv (env.sql_ok 0) _ _ s v λ db done.
              subst
                (λ d.
                  Inv
                    (record s { db = d; keys = modify k.key_hash (revoke_record env.now) s.keys }))
                (some-injective _ _ done)
                (subst
                  (λ i. Inv (record s {
                    db = record s.db { api_keys = map (revoke_row env.now i) s.db.api_keys };
                    keys = modify k.key_hash (revoke_record env.now) s.keys;
                  }))
                  (owned-id tenant_id id k mine) (revoked-Inv s v env.now k fits at)))
    ]

abbrev use_at : ℕ → KeyRecord → KeyRecord
use_at now k = record k { last_used_at = some now }

-- The cache's half of `touch_last_used`.
used-Linked :
    (s : Store) (v : Inv s) (now : ℕ) (h g : String)
    → Linked g (lookup g (modify h (use_at now) s.keys)) (row_of g s.db.api_keys)
used-Linked s v now h g = rw (lookup-modify h g (use_at now) s.keys) (elim (Bool-cases (h == g)) [
  | inl hit ↦
      rw (hit, (string_eq.test_iff h g).0 hit)
        (go (lookup g s.keys) (row_of g s.db.api_keys) (v.linked g))
  | inr miss ↦ rw miss (v.linked g)
])
  where
    go :
        (o : Option KeyRecord) (r : Option ApiKeyRow)
        → Linked g o r
        → Linked g (option_map (use_at now) o) r
    go none r l = tt
    go (some k) none l = l
    go (some k) (some r) l = l

pub touch_last_used-Inv :
    (env : Env) (id : String) (s : Store) → Inv s → Inv (touch_last_used env id s)
unfolding touch_last_used
touch_last_used-Inv env id s v = elim (Option-cases (find (λ k. k.id == id) (values s.keys))) [
  | inl e ↦
      rw (e, touch_last_used)
        (record { distinct = v.distinct; unique = v.unique; sane = v.sane; linked = v.linked })
  | inr (k, e) ↦
      rw (e, touch_last_used)
        (record {
          distinct = modify-IsDistinct k.key_hash (use_at env.now) s.keys v.distinct;
          unique = v.unique;
          sane = v.sane;
          linked = used-Linked s v env.now k.key_hash;
        })
]
