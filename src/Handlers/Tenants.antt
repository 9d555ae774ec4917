-- ===== src/Handlers/Tenants.antt =====
-- src/handlers.rs: the routes of tenants.
use rustspell_server.Base.{ℕ, String, true, false, List, map}
use rustspell_server.Models.{
  CreateTenantRequest, validate_create_tenant_request, UpdateTenantRequest,
  validate_update_tenant_request,
}
use rustspell_server.Store.Data.{KeyRecord, Env}
use rustspell_server.Store.Tenants.{
  TenantPatch, set_suspended, create_tenant as create_in_store, list_tenants as list_in_store,
  get_tenant as get_from_store, update_tenant as update_in_store,
}
use rustspell_server.Handlers.Metadata.{
  TenantMetadata, tenant_metadata, CreatedTenant, created_api_key_response,
}
use rustspell_server.Handlers.{
  H, ◌>>=◌, return, gets, or_internal, Body, with_body, with_tenant, tenant_message,
  no_content_or_not_found, or_not_found,
}

unfoldable pub get_own_tenant : KeyRecord → H TenantMetadata
get_own_tenant caller =
    with_tenant tenant_message caller.tenant_id
      λ tenant_id. do tenant ← gets (get_from_store tenant_id); or_not_found tenant_metadata tenant

-- The second of the two environments is that of the first key.
unfoldable pub create_tenant :
    (String → List ℕ) → Env → Env → Body CreateTenantRequest → H CreatedTenant
create_tenant sha256 env key_env body = with_body validate_create_tenant_request body λ req. do
  created ← or_internal (
      create_in_store sha256 env key_env req.name req.language req.quota_limit req.period_start
        req.period_end)
  return (record {
    tenant = tenant_metadata created.0;
    admin_key = created_api_key_response created.1;
  })

unfoldable pub list_tenants : H (List TenantMetadata)
list_tenants = gets (λ s. map tenant_metadata (list_in_store s))

unfoldable pub get_tenant : String → H TenantMetadata
get_tenant id = do tenant ← gets (get_from_store id); or_not_found tenant_metadata tenant

abbrev pub patch_of : UpdateTenantRequest → TenantPatch
patch_of req = record {
  name = req.name;
  language = req.language;
  quota_limit = req.quota_limit;
  request_count = req.request_count;
  period_start = req.period_start;
  period_end = req.period_end;
}

unfoldable pub update_tenant : Env → String → Body UpdateTenantRequest → H TenantMetadata
update_tenant env id body = with_body validate_update_tenant_request body λ req. do
  updated ← or_internal (update_in_store env id (patch_of req))
  or_not_found tenant_metadata updated

unfoldable pub suspend_tenant : Env → String → H (Unit {0})
suspend_tenant env id = do
  found ← or_internal (set_suspended env id true)
  no_content_or_not_found found

unfoldable pub reactivate_tenant : Env → String → H (Unit {0})
reactivate_tenant env id = do
  found ← or_internal (set_suspended env id false)
  no_content_or_not_found found
