-- ===== src/Handlers/Metadata.antt =====
-- src/models.rs: the bodies of answers, made from the store's records.
use rustspell_server.Base.{ℕ, String, Option}
use rustspell_server.Store.Data.{
  Role, KeyRecord, TenantInfo, OriginInfo, DictionaryInfo, CreatedApiKey,
}

-- Without the hash and the tenant.
pub record ApiKeyMetadata : Type 0 where
  pub id : String
  pub label : String
  pub role : Role
  pub created_at : ℕ
  pub expires_at : Option ℕ
  pub last_used_at : Option ℕ
  pub revoked_at : Option ℕ

unfoldable pub api_key_metadata : KeyRecord → ApiKeyMetadata
api_key_metadata k = record {
  id = k.id;
  label = k.label;
  role = k.role;
  created_at = k.created_at;
  expires_at = k.expires_at;
  last_used_at = k.last_used_at;
  revoked_at = k.revoked_at;
}

pub record CreatedApiKeyResponse : Type 0 where
  pub metadata : ApiKeyMetadata
  pub key : String

abbrev pub created_api_key_response : CreatedApiKey → CreatedApiKeyResponse
created_api_key_response c = record { metadata = api_key_metadata c.key_record; key = c.raw_key }

pub record TenantMetadata : Type 0 where
  pub id : String
  pub name : String
  pub language : String
  pub quota_limit : ℕ
  pub request_count : ℕ
  pub period_start : Option ℕ
  pub period_end : Option ℕ
  pub suspended_at : Option ℕ
  pub created_at : ℕ

unfoldable pub tenant_metadata : TenantInfo → TenantMetadata
tenant_metadata t = record {
  id = t.id;
  name = t.name;
  language = t.language;
  quota_limit = t.quota_limit;
  request_count = t.request_count;
  period_start = t.period_start;
  period_end = t.period_end;
  suspended_at = t.suspended_at;
  created_at = t.created_at;
}

pub record CreatedTenant : Type 0 where
  pub tenant : TenantMetadata
  pub admin_key : CreatedApiKeyResponse

-- Without the tenant.
pub record OriginMetadata : Type 0 where
  pub id : String
  pub origin : String
  pub created_at : ℕ

unfoldable pub origin_metadata : OriginInfo → OriginMetadata
origin_metadata o = record { id = o.id; origin = o.origin; created_at = o.created_at }

pub record DictionaryMetadata : Type 0 where
  pub code : String
  pub source_url : String
  pub created_at : ℕ

unfoldable pub dictionary_metadata : DictionaryInfo → DictionaryMetadata
dictionary_metadata d = record {
  code = d.code;
  source_url = d.source_url;
  created_at = d.created_at;
}
