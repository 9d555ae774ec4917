-- ===== src/Handlers/Keys.antt =====
-- src/handlers.rs: the routes of a tenant's API keys.
use rustspell_server.Base.{ℕ, String, List, map}
use rustspell_server.Models.{CreateApiKeyRequest, validate_create_api_key_request}
use rustspell_server.Store.Data.{KeyRecord, Env}
use rustspell_server.Store.Keys.{create_key, list_keys, revoke_key, rotate_key}
use rustspell_server.Handlers.Metadata.{
  ApiKeyMetadata, api_key_metadata, CreatedApiKeyResponse, created_api_key_response,
}
use rustspell_server.Handlers.{
  H, ◌>>=◌, return, gets, or_internal, Body, with_body, with_tenant, admin_message,
  no_content_or_not_found, or_not_found,
}

module _ (sha256 : String → List ℕ) (env : Env) (caller : KeyRecord) where
  unfoldable pub create_api_key : Body CreateApiKeyRequest → H CreatedApiKeyResponse
  create_api_key body = with_body validate_create_api_key_request body λ req.
      with_tenant admin_message caller.tenant_id λ tenant_id. do
        created ← or_internal (create_key sha256 env tenant_id req.label req.role req.expires_at)
        return (created_api_key_response created)

  unfoldable pub rotate_api_key : String → H CreatedApiKeyResponse
  rotate_api_key id = with_tenant admin_message caller.tenant_id λ tenant_id. do
    rotated ← or_internal (rotate_key sha256 env tenant_id id)
    or_not_found created_api_key_response rotated

unfoldable pub list_api_keys : KeyRecord → H (List ApiKeyMetadata)
list_api_keys caller =
    with_tenant admin_message caller.tenant_id
      λ tenant_id. gets (λ s. map api_key_metadata (list_keys tenant_id s))

unfoldable pub revoke_api_key : Env → KeyRecord → String → H (Unit {0})
revoke_api_key env caller id =
    with_tenant admin_message caller.tenant_id λ tenant_id. do
      found ← or_internal (revoke_key env tenant_id id)
      no_content_or_not_found found
