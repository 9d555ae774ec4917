-- ===== src/Store/Keys.antt =====
-- src/store.rs: the operations on API keys.
pub mod Lookup
pub mod Invariant
pub mod Updates
pub mod Rotation
pub mod Lifecycle
pub mod Revoked
pub mod Rotated
pub mod Tenancy
pub mod Bootstrap
pub mod Reset
pub mod History
pub mod Revocation
pub mod Permanence
use rustspell_server.Base.{
  ℕ, zero, suc, ◌/◌, ◌%◌, String, ◌<>◌, ◌≡◌, Bool, true, false, not, ◌&&◌, ◌||◌, Option, none, some,
  List, [], ◌∷◌, ◌++◌, map, any, find, retain, length, if◌then◌else◌, is_none, is_some, ◌==◌,
  string_eq, option_eq,
}
use rustspell_server.Base.Int.{ℤ, as_i64}
use rustspell_server.Base.Dict.{Dict, values, lookup, insert, remove, modify}
use rustspell_server.Store.Data.{
  Role, platform, role_beq, as_str, KeyRecord, is_active, CreatedApiKey, ApiKeyRow, TenantRow, Db,
  Write, last_used, Store, Env, Outcome, ok, err, panic, M, ◌>>=◌, ◌>>◌, return, gets, modify_store,
  execute, fetch, bind_opt, key_record_from_row,
}

abbrev hex_digit_of : ℕ → List String → String
hex_digit_of n [] = ""
hex_digit_of zero (d ∷ ds) = d
hex_digit_of (suc n) (d ∷ ds) = hex_digit_of n ds

abbrev hex_digit : ℕ → String
hex_digit n = hex_digit_of n (
    "0" ∷ "1" ∷ "2" ∷ "3" ∷ "4" ∷ "5" ∷ "6" ∷ "7" ∷ "8" ∷ "9" ∷ "a" ∷ "b" ∷ "c" ∷ "d" ∷ "e" ∷ "f"
    ∷ [])

abbrev hex : List ℕ → String
hex [] = ""
hex (b ∷ bs) = hex_digit (b / 16) <> (hex_digit (b % 16) <> hex bs)

-- The digest is `sha2`'s; the text is two hexadecimal digits for each of its bytes.
unfoldable pub hash_key : (String → List ℕ) → String → String
hash_key sha256 raw = hex (sha256 raw)

unfoldable pub generate_raw_key : Env → String
generate_raw_key env = "rsk_" <> (env.simple_a <> env.simple_b)

unfoldable pub has_active_platform_key : ℕ → Store → Bool
has_active_platform_key now s =
    any (λ k. role_beq k.role platform && is_active k now) (values s.keys)

abbrev pub references : Option String → List TenantRow → Bool
references none rows = true
references (some t) rows = any (λ r. r.id == t) rows

-- `INSERT INTO api_keys`: the primary key, the unique hash and the reference to the tenant.
unfoldable pub insert_api_key : ApiKeyRow → Db → Option Db
insert_api_key row db =
    if any (λ r. r.id == row.id || r.key_hash == row.key_hash) db.api_keys
    then none
    else if not (references row.tenant_id db.tenants)
    then none
    else some (record db { api_keys = db.api_keys ++ (row ∷ []) })

unfoldable pub api_key_row : KeyRecord → ApiKeyRow
api_key_row k = record {
  id = k.id;
  tenant_id = k.tenant_id;
  label = k.label;
  role = as_str k.role;
  key_hash = k.key_hash;
  created_at = as_i64 k.created_at;
  expires_at = bind_opt k.expires_at;
  last_used_at = none;
  revoked_at = none;
}

-- `UPDATE api_keys SET revoked_at = ? WHERE id = ? AND revoked_at IS NULL`
unfoldable pub set_revoked_at : ℤ → String → Db → Option Db
set_revoked_at at id db = some (record db {
  api_keys =
      map
        (λ (r : ApiKeyRow).
          if r.id == id && is_none r.revoked_at then record r { revoked_at = some at } else r)
        db.api_keys;
})

-- `UPDATE api_keys SET key_hash = ?, last_used_at = NULL WHERE id = ?`, under the unique hash.
unfoldable pub set_key_hash : String → String → Db → Option Db
set_key_hash hash id db =
    if any (λ r. not (r.id == id) && r.key_hash == hash) db.api_keys
      && any (λ r. r.id == id) db.api_keys
    then none
    else some (record db {
      api_keys =
          map
            (λ (r : ApiKeyRow).
              if r.id == id then record r { key_hash = hash; last_used_at = none } else r)
            db.api_keys;
    })

module _ (sha256 : String → List ℕ) where
  unfoldable pub create_key_internal :
      Env → Option String → String → Role → Option ℕ → M CreatedApiKey
  create_key_internal env tenant_id label role expires_at = do
    let raw_key = generate_raw_key env
    let key_hash = hash_key sha256 raw_key
    let fresh : KeyRecord = record {
      id = env.new_id;
      tenant_id = tenant_id;
      label = label;
      role = role;
      key_hash = key_hash;
      created_at = env.now;
      expires_at = expires_at;
      last_used_at = none;
      revoked_at = none;
    }
    execute (env.sql_ok 0) (insert_api_key (api_key_row fresh))
    modify_store (λ s. record s { keys = insert key_hash fresh s.keys })
    return (record { key_record = fresh; raw_key = raw_key })

  unfoldable pub create_key : Env → String → String → Role → Option ℕ → M CreatedApiKey
  create_key env tenant_id label role expires_at =
      create_key_internal env (some tenant_id) label role expires_at

unfoldable pub list_keys : String → Store → List KeyRecord
list_keys tenant_id s = retain (λ k. k.tenant_id == some tenant_id) (values s.keys)

abbrev pub owned : String → String → KeyRecord → Bool
owned tenant_id id k = k.id == id && k.tenant_id == some tenant_id

abbrev pub revoke_record : ℕ → KeyRecord → KeyRecord
revoke_record at k = if is_none k.revoked_at then record k { revoked_at = some at } else k

unfoldable pub revoke_key : Env → String → String → M Bool
revoke_key env tenant_id id s = elim (find (owned tenant_id id) (values s.keys)) [
  | none ↦ ok false s
  | some k ↦
      (do
        execute (env.sql_ok 0) (set_revoked_at (as_i64 env.now) id)
        modify_store (λ s'. record s' { keys = modify k.key_hash (revoke_record env.now) s'.keys })
        return true)
        s
]

module _ (sha256 : String → List ℕ) where
  -- The cache's half of a rotation: the entry moves from the old hash to the new one.
  unfoldable pub rehash : Env → String → M CreatedApiKey
  rehash env old_hash s = elim (lookup old_hash s.keys) [
    | none ↦ panic "checked above"
    | some k ↦
        let raw_key = generate_raw_key env in
        let new_hash = hash_key sha256 raw_key in
        let rotated = record k { key_hash = new_hash; last_used_at = none } in
        ok (record { key_record = rotated; raw_key = raw_key })
          (record s { keys = insert new_hash rotated (remove old_hash s.keys) })
  ]

  unfoldable pub rotate_key_by_hash : Env → String → String → M CreatedApiKey
  rotate_key_by_hash env old_hash id = do
    execute (env.sql_ok 0) (set_key_hash (hash_key sha256 (generate_raw_key env)) id)
    rehash env old_hash

  unfoldable pub rotate_key : Env → String → String → M (Option CreatedApiKey)
  rotate_key env tenant_id id s = elim (find (owned tenant_id id) (values s.keys)) [
    | none ↦ ok none s
    | some k ↦ (do created ← rotate_key_by_hash env k.key_hash id; return (some created)) s
  ]

  abbrev pub bootstrap_key : ℕ → KeyRecord → Bool
  bootstrap_key now k =
      role_beq k.role platform && k.label == "bootstrap" && is_none k.tenant_id && is_active k now

  unfoldable pub reset_bootstrap_platform_key : Env → M CreatedApiKey
  reset_bootstrap_platform_key env s = elim (retain (bootstrap_key env.now) (values s.keys)) [
    | [] ↦ create_key_internal sha256 env none "bootstrap" platform none s
    | k ∷ [] ↦ rotate_key_by_hash env k.key_hash k.id s
    | k ∷ k' ∷ ks ↦ err "reset is ambiguous" s
  ]

-- `SELECT … FROM api_keys WHERE key_hash = ?`: no row, a row that does not decode, or a record.
unfoldable pub load_key_by_hash : String → Db → Option KeyRecord
load_key_by_hash hash db = elim (find (λ r. r.key_hash == hash) db.api_keys) [
  | none ↦ none
  | some row ↦ key_record_from_row row
]

abbrev pub filter_active : ℕ → Option KeyRecord → Option KeyRecord
filter_active now none = none
filter_active now (some k) = if is_active k now then some k else none

-- `self.load_key_by_hash(&hash).await.ok()?`
abbrev pub answer : Env → String → Store → Option KeyRecord
answer env hash s = if env.sql_ok 0 then load_key_by_hash hash s.db else none

-- The database's answer on a miss of the cache: it replaces what the cache had for that id.
unfoldable pub authenticate_miss : Env → String → Store → Option KeyRecord × Store
authenticate_miss env hash s = elim (answer env hash s) [
  | none ↦ (none, s)
  | some k ↦ if not (is_active k env.now) then (none, s) else (
    some k,
    record s { keys = insert hash k (retain (λ (h, j). not (j.id == k.id)) s.keys) },
  )
]

module _ (sha256 : String → List ℕ) where
  unfoldable pub authenticate : Env → String → Store → Option KeyRecord × Store
  authenticate env raw_key s =
      elim (filter_active env.now (lookup (hash_key sha256 raw_key) s.keys)) [
        | some k ↦ (some k, s)
        | none ↦ authenticate_miss env (hash_key sha256 raw_key) s
      ]

-- The cache at once; the database in the background.
unfoldable pub touch_last_used : Env → String → Store → Store
touch_last_used env id s = elim (find (λ k. k.id == id) (values s.keys)) [
  | none ↦ record s { pending = s.pending ++ (last_used env.now id ∷ []) }
  | some k ↦ record s {
    keys = modify k.key_hash (λ j. record j { last_used_at = some env.now }) s.keys;
    pending = s.pending ++ (last_used env.now id ∷ []);
  }
]
