-- ===== src/Handlers/Answers.antt =====
-- src/handlers.rs: what the routes of API keys answer.
use rustspell_server.Base.{
  ℕ, String, ◌≡◌, ◌≢◌, refl, sym, subst, ap, ◌∙◌, true, false, Option, none, some, List, find, ◌==◌,
  string_eq,
}
use rustspell_server.Error.{not_found}
use rustspell_server.Models.{
  CreateApiKeyRequest, validate_create_api_key_request, valid, invalid, Validation,
}
use rustspell_server.Models.Accepted.{validate_create_api_key_request-label}
use rustspell_server.Store.Data.{
  not_expired, platform, KeyRecord, Store, Env, CreatedApiKey, M, Outcome, ok, err, panic,
}
use rustspell_server.Store.Keys.{create_key, list_keys, revoke_key, rotate_key, authenticate}
use rustspell_server.Store.Keys.Tenancy.{unlisted_unchanged}
use rustspell_server.Store.Keys.Lifecycle.{
  create_key_internal-authenticate, create_key_internal-IsCreated,
}
use rustspell_server.Handlers.{
  Handled, answered, failed, panicked, parsed, H, require_valid, ◌>>=◌, ◌>>◌, return, handled,
  or_internal, with_tenant, admin_message, no_content_or_not_found, or_not_found,
}
use rustspell_server.Handlers.Metadata.{
  api_key_metadata, created_api_key_response, CreatedApiKeyResponse,
}
use rustspell_server.Handlers.Keys.{create_api_key, rotate_api_key, revoke_api_key}

-- A call of the store that succeeds, and one step of a handler with it.
or_internal-ok {ℓ κ} :
    {A : Type ℓ} {B : Type κ} (m : M A) (f : A → H B) (s t : Store) (a : A)
    → m s ≡ ok a t
    → (or_internal m >>= f) s ≡ f a t
or_internal-ok {A = A} {B = B} m f s t a e =
    ap
      (λ o. elim (handled {A = A} o) as (λ _. Handled B) [
        | answered a s' ↦ f a s'
        | failed e s' ↦ failed e s'
        | panicked e ↦ panicked e
      ])
      e

with_tenant-some {ℓ} :
    {A : Type ℓ} (message : String) (o : Option String) (tenant_id : String) (k : String → H A)
    (s : Store)
    → o ≡ some tenant_id
    → with_tenant message o k s ≡ k tenant_id s
with_tenant-some message o tenant_id k s e = rw e refl

-- An id that the caller's own list of keys does not show, of another tenant or of none, gets the same answer: not found,
-- and nothing changes.
pub unlisted_not_found :
    (sha256 : String → List ℕ) (env : Env) (caller : KeyRecord) (tenant_id id : String) (s : Store)
    → caller.tenant_id ≡ some tenant_id
    → find (λ k. k.id == id) (list_keys tenant_id s) ≡ none
    → (revoke_api_key env caller id s ≡ failed not_found s)
      × (rotate_api_key sha256 env caller id s ≡ failed not_found s)
unfolding revoke_api_key rotate_api_key
unlisted_not_found sha256 env caller tenant_id id s mine missing =
    let unchanged = unlisted_unchanged sha256 env tenant_id id s missing in
    (
      with_tenant-some admin_message caller.tenant_id tenant_id _ s mine
          ∙ or_internal-ok (revoke_key env tenant_id id) no_content_or_not_found s s false
              unchanged.0,
      with_tenant-some admin_message caller.tenant_id tenant_id _ s mine
          ∙ or_internal-ok (rotate_key sha256 env tenant_id id)
              (or_not_found created_api_key_response) s s none unchanged.1,
    )

-- What a key that an admin made opens: the raw value that is answered lets its holder in as the caller's own tenant, not
-- as a platform key, and the answer shows that key.
pub record OpensOwn (sha256 : String → List ℕ) (caller : KeyRecord) (r : CreatedApiKeyResponse)
    (later : Env) (t : Store) : Type 0 where
  pub key : KeyRecord
  pub lets_in : authenticate sha256 later r.key t ≡ (some key, t)
  pub own_tenant : key.tenant_id ≡ caller.tenant_id
  pub no_platform : key.role ≢ platform
  pub shown : r.metadata ≡ api_key_metadata key

module _ (sha256 : String → List ℕ) (env later : Env) (caller : KeyRecord)
    (req : CreateApiKeyRequest) (s : Store)
    (live : not_expired req.expires_at later.now ≡ true) where
  abbrev Post : Handled CreatedApiKeyResponse → Type 0
  Post (answered r t) = OpensOwn sha256 caller r later t
  Post (failed e t) = Unit
  Post (panicked e) = Unit

  -- The rest of the handler, past the validation.
  abbrev rest : String → H CreatedApiKeyResponse
  rest tenant_id =
      or_internal (create_key sha256 env tenant_id req.label req.role req.expires_at) >>= λ created.
      return (created_api_key_response created)

  created-Post :
      (tenant_id : String)
      → caller.tenant_id ≡ some tenant_id
      → req.role ≢ platform
      → (o : Outcome CreatedApiKey)
      → create_key sha256 env tenant_id req.label req.role req.expires_at s ≡ o
      → Post (elim (handled o) [
        | answered c t ↦ answered (created_api_key_response c) t
        | failed e t ↦ failed e t
        | panicked e ↦ panicked e
      ])
  unfolding create_key
  created-Post tenant_id mine role (err e t) h = tt
  created-Post tenant_id mine role (panic e) h = tt
  created-Post tenant_id mine role (ok c t) h =
      let made =
        create_key_internal-IsCreated sha256 env (some tenant_id) req.label req.role req.expires_at
          s t c h in
      record {
        key = c.key_record;
        lets_in =
            create_key_internal-authenticate sha256 env later (some tenant_id) req.label req.role
              req.expires_at s t c h live;
        own_tenant = made.owner ∙ sym mine;
        no_platform = λ e. role (sym made.role_is ∙ e);
        shown = refl;
      }

  tenant-Post :
      req.role ≢ platform
      → (o : Option String) → caller.tenant_id ≡ o
      → Post (with_tenant admin_message o rest s)
  tenant-Post role none e = tt
  tenant-Post role (some tenant_id) e = created-Post tenant_id e role _ refl

  valid-Post :
      (v : Validation)
      → validate_create_api_key_request req ≡ v
      → Post ((require_valid v >> with_tenant admin_message caller.tenant_id rest) s)
  valid-Post (invalid m) e = tt
  valid-Post valid e =
      tenant-Post (validate_create_api_key_request-label req e).0 caller.tenant_id refl

  -- A key that an admin makes lets its holder in as that admin's own tenant and never as a platform key, at every time at
  -- which it has not expired.
  pub create_api_key-OpensOwn :
      (t : Store) (r : CreatedApiKeyResponse)
      → create_api_key sha256 env caller (parsed req) s ≡ answered r t
      → OpensOwn sha256 caller r later t
  unfolding create_api_key
  create_api_key-OpensOwn t r h = subst Post h (valid-Post _ refl)
