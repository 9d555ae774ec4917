-- ===== src/Handlers.antt =====
-- src/handlers.rs: the handlers, over the store. A path, the caller's key and the body are what the
-- extractors give.
pub mod Metadata
pub mod Keys
pub mod Tenants
pub mod Origins
pub mod Usage
pub mod Answers
pub mod Languages
use rustspell_server.Base.{String, Bool, true, false, Option, none, some}
use rustspell_server.Error.{AppError, validation, json_rejection, internal, not_found}
use rustspell_server.Models.{Validation, valid, invalid}
use rustspell_server.Store.Data.{KeyRecord, Store, Outcome, ok, err, panic, M}

-- What a handler gives: its answer or an error, with the store as it then is, or a panic.
pub data Handled {ℓ} (A : Type ℓ) : Type ℓ where
  answered : A → Store → Handled A
  failed : AppError → Store → Handled A
  panicked : String → Handled A

abbrev pub H {ℓ} : Type ℓ → Type ℓ
H A = Store → Handled A

infixl 5 ◌>>=◌ ◌>>◌
abbrev pub ◌>>=◌ {ℓ κ} : {A : Type ℓ} {B : Type κ} → H A → (A → H B) → H B
◌>>=◌ m f s = elim (m s) [
  | answered a s' ↦ f a s'
  | failed e s' ↦ failed e s'
  | panicked e ↦ panicked e
]

abbrev pub ◌>>◌ {ℓ κ} : {A : Type ℓ} {B : Type κ} → H A → H B → H B
m >> k = m >>= λ _. k

abbrev pub return {ℓ} : {A : Type ℓ} → A → H A
return a s = answered a s

abbrev pub fail {ℓ} : {A : Type ℓ} → AppError → H A
fail e s = failed e s

abbrev pub gets {ℓ} : {A : Type ℓ} → (Store → A) → H A
gets f s = answered (f s) s

-- `map_err(|e| AppError::Internal(e.to_string()))?`
abbrev pub handled {ℓ} : {A : Type ℓ} → Outcome A → Handled A
handled (ok a s) = answered a s
handled (err e s) = failed (internal e) s
handled (panic e) = panicked e

abbrev pub or_internal {ℓ} : {A : Type ℓ} → M A → H A
or_internal m s = handled (m s)

-- What the extractor of a JSON body gives.
pub data Body {ℓ} (A : Type ℓ) : Type ℓ where
  rejected : String → Body A
  parsed : A → Body A

abbrev pub require_valid : Validation → H (Unit {0})
require_valid valid s = answered tt s
require_valid (invalid m) s = failed (validation m) s

-- `let Json(req) = req?; req.validate().map_err(AppError::Validation)?;`
abbrev pub with_body {ℓ κ} : {A : Type ℓ} {B : Type κ} → (A → Validation) → Body A → (A → H B) → H B
with_body validate (rejected m) k = fail (json_rejection m)
with_body validate (parsed a) k = require_valid (validate a) >> k a

-- `caller.tenant_id.as_deref().expect(message)`
abbrev pub with_tenant {ℓ} : {A : Type ℓ} → String → Option String → (String → H A) → H A
with_tenant message none k s = panicked message
with_tenant message (some tenant_id) k s = k tenant_id s

abbrev pub admin_message : String
admin_message = "require_admin guarantees a tenant-scoped key"

abbrev pub tenant_message : String
tenant_message = "require_active_tenant guarantees a tenant-scoped key"

-- `StatusCode::NO_CONTENT`
abbrev pub no_content_or_not_found : Bool → H (Unit {0})
no_content_or_not_found true = return tt
no_content_or_not_found false = fail not_found

-- `ok_or(AppError::NotFound)`
abbrev pub or_not_found {ℓ κ} : {A : Type ℓ} {B : Type κ} → (A → B) → Option A → H B
or_not_found f none = fail not_found
or_not_found f (some a) = return (f a)
