-- ===== src/Handlers/Origins.antt =====
-- src/handlers.rs: the routes of a tenant's origins.
use rustspell_server.Base.{String, Option, List, map}
use rustspell_server.Models.{Uri, validate_register_origin_request}
use rustspell_server.Store.Data.{KeyRecord, Env}
use rustspell_server.Store.Origins.{
  list_origins, register_origin as register_in_store, revoke_origin as revoke_in_store,
}
use rustspell_server.Handlers.Metadata.{OriginMetadata, origin_metadata}
use rustspell_server.Handlers.{
  H, ◌>>=◌, return, gets, or_internal, Body, with_body, with_tenant, admin_message,
  no_content_or_not_found,
}

unfoldable pub list_own_origins : KeyRecord → H (List OriginMetadata)
list_own_origins caller =
    with_tenant admin_message caller.tenant_id
      λ tenant_id. gets (λ s. map origin_metadata (list_origins tenant_id s))

unfoldable pub register_origin :
    (String → Option Uri) → Env → KeyRecord → Body String → H OriginMetadata
register_origin parse_uri env caller body =
    with_body (validate_register_origin_request parse_uri) body λ origin.
      with_tenant admin_message caller.tenant_id λ tenant_id. do
        info ← or_internal (register_in_store env tenant_id origin)
        return (origin_metadata info)

unfoldable pub revoke_origin : Env → KeyRecord → String → H (Unit {0})
revoke_origin env caller id = with_tenant admin_message caller.tenant_id λ tenant_id. do
  found ← or_internal (revoke_in_store env tenant_id id)
  no_content_or_not_found found
