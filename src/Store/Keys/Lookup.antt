-- ===== src/Store/Keys/Lookup.antt =====
-- src/store.rs, API keys: the rows of `api_keys`, whose ids and hashes are unique, and what a
-- SELECT by hash finds after each statement.
use rustspell_server.Base.{
  String, ◌≡◌, refl, inl, inr, true, false, not, ◌&&◌, ◌||◌, Option, none, some, List, [], ◌∷◌,
  ◌++◌, map, arith, any, find, if◌then◌else◌, Bool-cases, ◌==◌, string_eq, ==-sym,
}
use rustspell_server.Base.Dict.{option_map}
use rustspell_server.Store.Data.{ApiKeyRow}

abbrev pub row_of : String → List ApiKeyRow → Option ApiKeyRow
row_of hash rows = find (λ r. r.key_hash == hash) rows

abbrev pub row_by_id : String → List ApiKeyRow → Option ApiKeyRow
row_by_id id rows = find (λ r. r.id == id) rows

abbrev pub Differs : ApiKeyRow → List ApiKeyRow → Type 0
Differs r [] = Unit
Differs r (q ∷ qs) = ((q.id == r.id) ≡ false) × ((q.key_hash == r.key_hash) ≡ false) × Differs r qs

-- No two rows share an id or a hash.
abbrev pub IsUnique : List ApiKeyRow → Type 0
IsUnique [] = Unit
IsUnique (r ∷ rs) = Differs r rs × IsUnique rs

Differs-append :
    (r q : ApiKeyRow) (rs : List ApiKeyRow)
    → Differs r rs
    → (q.id == r.id) ≡ false
    → (q.key_hash == r.key_hash) ≡ false
    → Differs r (rs ++ (q ∷ []))
Differs-append r q [] d h k = (h, k, tt)
Differs-append r q (x ∷ rs) d h k = (d.0, d.1, Differs-append r q rs d.2 h k)

-- An insertion that passes the constraints.
pub append-IsUnique :
    (q : ApiKeyRow) (rs : List ApiKeyRow)
    → any (λ r. r.id == q.id || r.key_hash == q.key_hash) rs ≡ false
    → IsUnique rs
    → IsUnique (rs ++ (q ∷ []))
append-IsUnique q [] h u = (tt, tt)
append-IsUnique q (r ∷ rs) h u = (
  Differs-append r q rs u.0 (ground (arith, ==-sym q.id r.id))
      (ground (arith, ==-sym q.key_hash r.key_hash)),
  append-IsUnique q rs (ground arith) u.1,
)

pub row_of-append :
    (hash : String) (q : ApiKeyRow) (rs : List ApiKeyRow)
    → any (λ r. r.id == q.id || r.key_hash == q.key_hash) rs ≡ false
    → row_of hash (rs ++ (q ∷ [])) ≡ (if q.key_hash == hash then some q else row_of hash rs)
row_of-append hash q [] h = refl
row_of-append hash q (r ∷ rs) h = ground (
  arith,
  string_eq.test_iff q.key_hash hash,
  string_eq.test_iff r.key_hash hash,
  string_eq.test_iff r.key_hash q.key_hash,
  row_of-append hash q rs,
)

-- An update that leaves the ids and the hashes alone.
module _ (f : ApiKeyRow → ApiKeyRow) (same_id : (r : ApiKeyRow) → (f r).id ≡ r.id)
    (same_hash : (r : ApiKeyRow) → (f r).key_hash ≡ r.key_hash) where
  Differs-map : (r : ApiKeyRow) (rs : List ApiKeyRow) → Differs r rs → Differs (f r) (map f rs)
  Differs-map r [] d = tt
  Differs-map r (q ∷ qs) d =
      ground (arith, same_id r, same_id q, same_hash r, same_hash q, Differs-map r qs d.2)

  pub map-IsUnique : (rs : List ApiKeyRow) → IsUnique rs → IsUnique (map f rs)
  map-IsUnique [] u = tt
  map-IsUnique (r ∷ rs) u = (Differs-map r rs u.0, map-IsUnique rs u.1)

  pub row_of-map :
      (hash : String) (rs : List ApiKeyRow) → row_of hash (map f rs) ≡ option_map f (row_of hash rs)
  row_of-map hash [] = refl
  row_of-map hash (r ∷ rs) = ground (arith, same_hash r, row_of-map hash rs)

pub Differs-row_by_id :
    (r q : ApiKeyRow) (rs : List ApiKeyRow) (hash : String)
    → Differs r rs
    → row_of hash rs ≡ some q
    → ((q.id == r.id) ≡ false) × ((q.key_hash == r.key_hash) ≡ false) × (q.key_hash ≡ hash)
Differs-row_by_id r q [] hash d h = absurd (cc)
Differs-row_by_id r q (x ∷ rs) hash d h =
    ground (arith, string_eq.test_iff x.key_hash hash, Differs-row_by_id r q rs hash d.2)

pub row_of-hash :
    (hash : String) (rs : List ApiKeyRow) (q : ApiKeyRow)
    → row_of hash rs ≡ some q
    → q.key_hash ≡ hash
row_of-hash hash [] q h = absurd (cc)
row_of-hash hash (r ∷ rs) q h =
    ground (arith, string_eq.test_iff r.key_hash hash, row_of-hash hash rs q)

-- Rows found at two hashes that have one id are one row, so the hashes are one too.
pub row_of_inj :
    (g h : String) (rs : List ApiKeyRow) (q r : ApiKeyRow)
    → IsUnique rs
    → row_of g rs ≡ some q
    → row_of h rs ≡ some r
    → q.id ≡ r.id
    → g ≡ h
row_of_inj g h [] q r u e f p = absurd (cc)
row_of_inj g h (x ∷ rs) q r u e f p = ground (
  arith,
  string_eq.test_iff x.key_hash g,
  string_eq.test_iff x.key_hash h,
  string_eq.test_iff q.id x.id,
  string_eq.test_iff r.id x.id,
  Differs-row_by_id x q rs g u.0,
  Differs-row_by_id x r rs h u.0,
  row_of_inj g h rs q r u.1,
)

abbrev pub with_hash : String → String → ApiKeyRow → ApiKeyRow
with_hash hash id r = if r.id == id then record r { key_hash = hash; last_used_at = none } else r

-- No row of another id has the hash already.
abbrev pub IsFree : String → String → List ApiKeyRow → Type 0
IsFree hash id rs = any (λ r. not (r.id == id) && r.key_hash == hash) rs ≡ false

Differs-with_hash :
    (hash id : String) (r : ApiKeyRow) (rs : List ApiKeyRow)
    → Differs r rs
    → (r.id == id) ≡ false
    → (r.key_hash == hash) ≡ false
    → Differs r (map (with_hash hash id) rs)
Differs-with_hash hash id r [] d h k = tt
Differs-with_hash hash id r (q ∷ qs) d h k =
    ground (arith, ==-sym r.key_hash hash, Differs-with_hash hash id r qs d.2)

Differs-with_hash_self :
    (hash id : String) (r q : ApiKeyRow) (rs : List ApiKeyRow)
    → Differs r rs
    → (r.id == id) ≡ true
    → q.id ≡ r.id
    → q.key_hash ≡ hash
    → IsFree hash id rs
    → Differs q (map (with_hash hash id) rs)
Differs-with_hash_self hash id r q [] d h k l fr = tt
Differs-with_hash_self hash id r q (x ∷ xs) d h k l fr =
    ground (arith, string_eq.test_iff r.id id, Differs-with_hash_self hash id r q xs d.2)

pub with_hash-IsUnique :
    (hash id : String) (rs : List ApiKeyRow)
    → IsFree hash id rs
    → IsUnique rs
    → IsUnique (map (with_hash hash id) rs)
with_hash-IsUnique hash id [] fr u = tt
with_hash-IsUnique hash id (r ∷ rs) fr u = elim (Bool-cases (r.id == id)) [
  | inl hit ↦
      rw (hit, with_hash)
        (
          Differs-with_hash_self hash id r (record r { key_hash = hash; last_used_at = none }) rs
              u.0 hit refl refl (ground arith),
          with_hash-IsUnique hash id rs (ground arith) u.1,
        )
  | inr miss ↦
      rw (miss, with_hash)
        (
          Differs-with_hash hash id r rs u.0 miss (ground arith),
          with_hash-IsUnique hash id rs (ground arith) u.1,
        )
]

pub row_of-with_hash_ne :
    (g hash id : String) (rs : List ApiKeyRow) (q : ApiKeyRow)
    → (g == hash) ≡ false
    → row_of g rs ≡ some q
    → (q.id == id) ≡ false
    → row_of g (map (with_hash hash id) rs) ≡ some q
row_of-with_hash_ne g hash id [] q n h k = absurd (cc)
row_of-with_hash_ne g hash id (r ∷ rs) q n h k =
    ground (arith, ==-sym g hash, row_of-with_hash_ne g hash id rs q n)

pub Differs-row_of :
    (r : ApiKeyRow) (rs : List ApiKeyRow) → Differs r rs → row_of r.key_hash rs ≡ none
Differs-row_of r [] d = refl
Differs-row_of r (q ∷ qs) d = ground (arith, Differs-row_of r qs d.2)

row_of-with_hash_absent :
    (g hash id : String) (rs : List ApiKeyRow)
    → (g == hash) ≡ false
    → row_of g rs ≡ none
    → row_of g (map (with_hash hash id) rs) ≡ none
row_of-with_hash_absent g hash id [] n h = refl
row_of-with_hash_absent g hash id (r ∷ rs) n h =
    ground (arith, ==-sym g hash, row_of-with_hash_absent g hash id rs n)

-- The old hash of a rotated row finds nothing any more.
pub row_of-with_hash_old :
    (g hash id : String) (rs : List ApiKeyRow) (q : ApiKeyRow)
    → IsUnique rs
    → (g == hash) ≡ false
    → row_of g rs ≡ some q
    → (q.id == id) ≡ true
    → row_of g (map (with_hash hash id) rs) ≡ none
row_of-with_hash_old g hash id [] q u n h k = refl
row_of-with_hash_old g hash id (r ∷ rs) q u n h k = elim (Bool-cases (r.key_hash == g)) [
  | inl hit ↦
      let absent : row_of g rs ≡ none =
        rw (← (string_eq.test_iff r.key_hash g).0 hit) (Differs-row_of r rs u.0) in
      ground (arith, ==-sym g hash, row_of-with_hash_absent g hash id rs n absent)
  | inr miss ↦ ground (
    arith,
    ==-sym g hash,
    string_eq.test_iff q.id id,
    string_eq.test_iff r.id id,
    string_eq.test_iff q.id r.id,
    row_of-with_hash_old g hash id rs q u.1 n,
  )
]

-- The new hash finds the rotated row.
pub row_of-with_hash_new :
    (g hash id : String) (rs : List ApiKeyRow) (q : ApiKeyRow)
    → IsUnique rs
    → IsFree hash id rs
    → row_of g rs ≡ some q
    → (q.id == id) ≡ true
    → row_of hash (map (with_hash hash id) rs) ≡ some (with_hash hash id q)
row_of-with_hash_new g hash id [] q u fr h k = absurd (cc)
row_of-with_hash_new g hash id (r ∷ rs) q u fr h k = ground (
  arith,
  string_eq.test_iff hash hash,
  string_eq.test_iff q.id id,
  string_eq.test_iff r.id id,
  string_eq.test_iff q.id r.id,
  Differs-row_by_id r q rs g u.0,
  row_of-with_hash_new g hash id rs q u.1,
)
