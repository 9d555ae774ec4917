-- ===== src/Store/Data.antt =====
-- src/store.rs: the records, the tables of the database and the caches in memory.
-- A table is the list of its rows; a nullable column is an `Option`; a BIGINT is a ℤ.
use rustspell_server.Base.{
  ℕ, String, Bool, true, false, ◌&&◌, Option, none, some, List, ltb, if◌then◌else◌, is_none, ◌==◌,
  string_eq,
}
use rustspell_server.Base.Int.{ℤ, negsuc, as_i64, as_u64, nonneg}
use rustspell_server.Base.Dict.{Dict, option_map}

pub data Role : Type 0 where
  platform admin standard : Role

abbrev pub role_beq : Role → Role → Bool
role_beq platform platform = true
role_beq admin admin = true
role_beq standard standard = true
role_beq _ _ = false

unfoldable pub as_str : Role → String
as_str platform = "platform"
as_str admin = "admin"
as_str standard = "standard"

unfoldable pub parse_role : String → Option Role
parse_role s =
    if s == "platform"
    then some platform
    else if s == "admin"
    then some admin
    else if s == "standard"
    then some standard
    else none

pub record KeyRecord : Type 0 where
  pub id : String
  pub tenant_id : Option String
  pub label : String
  pub role : Role
  pub key_hash : String
  pub created_at : ℕ
  pub expires_at : Option ℕ
  pub last_used_at : Option ℕ
  pub revoked_at : Option ℕ

abbrev pub not_expired : Option ℕ → ℕ → Bool
not_expired none now = true
not_expired (some exp) now = ltb now exp

unfoldable pub is_active : KeyRecord → ℕ → Bool
is_active k now = is_none k.revoked_at && not_expired k.expires_at now

pub record TenantInfo : Type 0 where
  pub id : String
  pub name : String
  pub language : String
  pub quota_limit : ℕ
  pub request_count : ℕ
  pub period_start : Option ℕ
  pub period_end : Option ℕ
  pub suspended_at : Option ℕ
  pub created_at : ℕ

pub record OriginInfo : Type 0 where
  pub id : String
  pub tenant_id : String
  pub origin : String
  pub created_at : ℕ

pub record DictionaryInfo : Type 0 where
  pub code : String
  pub source_url : String
  pub created_at : ℕ

-- A new key, with the raw value that is shown once.
pub record CreatedApiKey : Type 0 where
  pub key_record : KeyRecord
  pub raw_key : String

-- The rows of the tables of `init_schema`.
pub record ApiKeyRow : Type 0 where
  pub id : String
  pub tenant_id : Option String
  pub label : String
  pub role : String
  pub key_hash : String
  pub created_at : ℤ
  pub expires_at : Option ℤ
  pub last_used_at : Option ℤ
  pub revoked_at : Option ℤ

pub record TenantRow : Type 0 where
  pub id : String
  pub name : String
  pub language : String
  pub quota_limit : ℤ
  pub request_count : ℤ
  pub period_start : Option ℤ
  pub period_end : Option ℤ
  pub suspended_at : Option ℤ
  pub created_at : ℤ

pub record OriginRow : Type 0 where
  pub id : String
  pub tenant_id : String
  pub origin : String
  pub created_at : ℤ

pub record DictionaryRow : Type 0 where
  pub code : String
  pub source_url : String
  pub created_at : ℤ

pub record Db : Type 0 where
  pub tenants : List TenantRow
  pub tenant_origins : List OriginRow
  pub api_keys : List ApiKeyRow
  pub dictionaries : List DictionaryRow

-- The background writes that `touch_last_used` and `try_consume_quota` spawn.
pub data Write : Type 0 where
  last_used : ℕ → String → Write
  request_count : ℕ → String → Write

pub record Store : Type 0 where
  pub db : Db
  pub pending : List Write
  pub keys : Dict String KeyRecord
  pub tenants : Dict String TenantInfo
  pub origins_any : List String
  pub origins_by_tenant : Dict String (Dict String OriginInfo)
  pub dictionaries : Dict String DictionaryInfo

-- What a call takes from outside: the clock, the random identifiers, and whether its n-th
-- statement reaches the database.
pub record Env : Type 0 where
  pub now : ℕ
  pub new_id : String
  pub simple_a : String
  pub simple_b : String
  pub sql_ok : ℕ → Bool

-- What a call gives back: a value or an error, with the store as it then is, or a panic.
pub data Outcome {ℓ} (A : Type ℓ) : Type ℓ where
  ok : A → Store → Outcome A
  err : String → Store → Outcome A
  panic : String → Outcome A

abbrev pub M {ℓ} : Type ℓ → Type ℓ
M A = Store → Outcome A

infixl 5 ◌>>=◌ ◌>>◌
abbrev pub ◌>>=◌ {ℓ κ} : {A : Type ℓ} {B : Type κ} → M A → (A → M B) → M B
◌>>=◌ m f s = elim (m s) [ ok a s' ↦ f a s' | err e s' ↦ err e s' | panic e ↦ panic e ]

abbrev pub ◌>>◌ {ℓ κ} : {A : Type ℓ} {B : Type κ} → M A → M B → M B
m >> k = m >>= λ _. k

abbrev pub return {ℓ} : {A : Type ℓ} → A → M A
return a s = ok a s

abbrev pub gets {ℓ} : {A : Type ℓ} → (Store → A) → M A
gets f s = ok (f s) s

-- A change of the caches.
abbrev pub modify_store : (Store → Store) → M (Unit {0})
modify_store f s = ok tt (f s)

-- A statement that changes the database: it fails where the database is not reached or a
-- constraint of the schema is violated, and then it changes nothing.
abbrev pub commit : Option Db → M (Unit {0})
commit none s = err "constraint violation" s
commit (some db) s = ok tt (record s { db = db })

abbrev pub execute : Bool → (Db → Option Db) → M (Unit {0})
execute false f s = err "database error" s
execute true f s = commit (f s.db) s

-- A statement that reads.
abbrev pub fetch {ℓ} : {A : Type ℓ} → Bool → (Db → A) → M A
fetch false f s = err "database error" s
fetch true f s = ok (f s.db) s

-- `COALESCE(column, -1)`, and the reading of such a column.
abbrev pub coalesce : Option ℤ → ℤ
coalesce none = negsuc 0
coalesce (some z) = z

abbrev pub then_some : ℤ → Option ℕ
then_some z = if nonneg z then some (as_u64 z) else none

abbrev pub bind_opt : Option ℕ → Option ℤ
bind_opt = option_map as_i64

-- `COALESCE(tenant_id, '')`, and `(!tenant_id.is_empty()).then_some(tenant_id)`.
abbrev pub coalesce_text : Option String → String
coalesce_text none = ""
coalesce_text (some t) = t

abbrev pub non_empty : String → Option String
non_empty t = if t == "" then none else some t

unfoldable pub key_record_from_row : ApiKeyRow → Option KeyRecord
key_record_from_row row = elim (parse_role row.role) [
  | none ↦ none
  | some role ↦ some (record {
    id = row.id;
    tenant_id = non_empty (coalesce_text row.tenant_id);
    label = row.label;
    role = role;
    key_hash = row.key_hash;
    created_at = as_u64 row.created_at;
    expires_at = then_some (coalesce row.expires_at);
    last_used_at = then_some (coalesce row.last_used_at);
    revoked_at = then_some (coalesce row.revoked_at);
  })
]

unfoldable pub tenant_info_from_row : TenantRow → TenantInfo
tenant_info_from_row row = record {
  id = row.id;
  name = row.name;
  language = row.language;
  quota_limit = as_u64 row.quota_limit;
  request_count = as_u64 row.request_count;
  period_start = then_some (coalesce row.period_start);
  period_end = then_some (coalesce row.period_end);
  suspended_at = then_some (coalesce row.suspended_at);
  created_at = as_u64 row.created_at;
}

unfoldable pub origin_info_from_row : OriginRow → OriginInfo
origin_info_from_row row = record {
  id = row.id;
  tenant_id = row.tenant_id;
  origin = row.origin;
  created_at = as_u64 row.created_at;
}

unfoldable pub dictionary_info_from_row : DictionaryRow → DictionaryInfo
dictionary_info_from_row row = record {
  code = row.code;
  source_url = row.source_url;
  created_at = as_u64 row.created_at;
}
