-- ===== src/Examples/Tenants.antt =====
-- src/store.rs, tenants, origins and dictionaries, at concrete inputs.
use rustspell_server.Base.{String, ◌≡◌, refl, string_eq, none, some, List, [], ◌∷◌, arith}
use rustspell_server.Base.Dict.{lookup, insert}
use rustspell_server.Base.{Bool-cases, inl, inr, ◌==◌}
use rustspell_server.Base.Int.{pos}
use rustspell_server.Store.Data.{
  OriginInfo, OriginRow, admin, as_str, TenantInfo, CreatedApiKey, Store, ok,
}
use rustspell_server.Store.Keys.{
  hash_key, generate_raw_key, insert_api_key, api_key_row, create_key_internal,
}
use rustspell_server.Store.Tenants.{
  insert_tenant, tenant_row, new_tenant, create_tenant, TenantPatch,
}
use rustspell_server.Store.Tenants.Quota.{serve, requests, allowance, counted, serve-allowance}
use rustspell_server.Store.Tenants.Updates.{IsProvisioned, create_tenant-IsProvisioned}
use rustspell_server.Store.Origins.{register_origin, is_registered_origin, still_owned}
use rustspell_server.Store.Origins.Registry.{Agrees}
use rustspell_server.Store.Origins.Ownership.{Registers, register_origin-Registers}
use rustspell_server.Examples.Data.{empty_store, codes, env_at}
use rustspell_server.Examples.TenantKeys.{store_t, tenant_t}

t_is : lookup "t" store_t.tenants ≡ some tenant_t
unfolding lookup
t_is = refl

abbrev three_requests : List String
three_requests = "t" ∷ "u" ∷ "t" ∷ "t" ∷ []

-- Three requests, of which the limit of 2 admits two.
serve-allowance_example :
    ((serve "t" three_requests store_t).0 ≡ allowance (requests "t" three_requests) tenant_t)
    × (lookup "t" (serve "t" three_requests store_t).1.tenants
        ≡ some (counted (allowance (requests "t" three_requests) tenant_t) tenant_t))
serve-allowance_example =
    serve-allowance "t" three_requests store_t tenant_t t_is (omega arith, omega arith)

abbrev rename : TenantPatch
rename = record {
  name = some "New";
  language = none;
  quota_limit = none;
  request_count = some 0;
  period_start = some none;
  period_end = none;
}

abbrev made : TenantInfo × CreatedApiKey
made = (
  record {
    id = "v";
    name = "Vee";
    language = "en_US";
    quota_limit = 0;
    request_count = 0;
    period_start = none;
    period_end = none;
    suspended_at = none;
    created_at = 60;
  },
  record {
    key_record = record {
      id = "w";
      tenant_id = some "v";
      label = "default";
      role = admin;
      key_hash = "72736b5f7777";
      created_at = 61;
      expires_at = none;
      last_used_at = none;
      revoked_at = none;
    };
    raw_key = "rsk_ww";
  },
)

abbrev store_v : Store
store_v = record empty_store {
  db = record empty_store.db {
    tenants = tenant_row made.0 ∷ [];
    api_keys = api_key_row made.1.key_record ∷ [];
  };
  keys = (("72736b5f7777", made.1.key_record) ∷ []);
  tenants = (("v", made.0) ∷ []);
}

provision_is :
    create_tenant codes (env_at 60 "v") (env_at 61 "w") "Vee" none none none none empty_store
    ≡ ok made store_v
unfolding create_tenant new_tenant tenant_row insert_tenant create_key_internal hash_key
    generate_raw_key insert_api_key api_key_row insert as_str
provision_is = refl

create_tenant-IsProvisioned_example : IsProvisioned codes made store_v
create_tenant-IsProvisioned_example =
    create_tenant-IsProvisioned codes (env_at 60 "v") (env_at 61 "w") "Vee" none none none none
      empty_store store_v made provision_is

empty-Agrees : Agrees empty_store
unfolding is_registered_origin still_owned
empty-Agrees o = refl

abbrev origin_o : OriginInfo
origin_o = record { id = "o"; tenant_id = "t"; origin = "https://a.example"; created_at = 60 }

abbrev row_o : OriginRow
row_o = record { id = "o"; tenant_id = "t"; origin = "https://a.example"; created_at = pos 60 }

-- The tenant "t" with one origin.
abbrev store_o : Store
store_o = record store_t {
  db = record store_t.db { tenant_origins = row_o ∷ [] };
  origins_any = "https://a.example" ∷ [];
  origins_by_tenant = (("t", ("https://a.example", origin_o) ∷ []) ∷ []);
}

store_o-Agrees : Agrees store_o
unfolding is_registered_origin still_owned lookup
store_o-Agrees o = elim (Bool-cases ("https://a.example" == o)) [
  | inl same ↦ rw same refl
  | inr other ↦ rw other refl
]

register_origin-Registers_example :
    Registers "t" "https://a.example" store_t
      (register_origin (env_at 60 "o") "t" "https://a.example" store_t)
register_origin-Registers_example =
    register_origin-Registers (env_at 60 "o") "t" "https://a.example" store_t
