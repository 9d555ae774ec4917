-- ===== src/Error.antt =====
-- src/error.rs: the application's errors and the problem documents that they become.
-- The payloads of the `validator` and `axum` error types, which the code only carries, are texts.
pub mod Slugs
use Prim.Native.String.{◌++◌ as ◌<>◌}
use rustspell_server.Base.{ℕ, String, ◌≡◌, Option, none, some}

pub data AppError : Type 0 where
  validation : String → AppError
  json_rejection : String → AppError
  dictionary_download : String → AppError
  dictionary_parse : String → AppError
  internal : String → AppError
  unauthorized : AppError
  forbidden : AppError
  rate_limited : ℕ → AppError
  not_found : AppError
  quota_exceeded : AppError
  unsupported_language : String → AppError
  invalid_date_range : String → AppError

pub data Result {ℓ} (A : Type ℓ) : Type ℓ where
  ok : A → Result A
  err : AppError → Result A

infixl 5 ◌>>=◌
abbrev pub ◌>>=◌ {ℓ κ} : {A : Type ℓ} {B : Type κ} → Result A → (A → Result B) → Result B
ok a >>= f = f a
err e >>= f = err e

unfoldable pub status_code : AppError → ℕ
status_code (validation _) = 400
status_code (json_rejection _) = 400
status_code (dictionary_download _) = 503
status_code (dictionary_parse _) = 503
status_code (internal _) = 500
status_code unauthorized = 401
status_code forbidden = 403
status_code (rate_limited _) = 429
status_code not_found = 404
status_code quota_exceeded = 429
status_code (unsupported_language _) = 400
status_code (invalid_date_range _) = 400

unfoldable pub problem_slug : AppError → String
problem_slug (validation _) = "validation-error"
problem_slug (json_rejection _) = "invalid-json"
problem_slug (dictionary_download _) = "dictionary-download-error"
problem_slug (dictionary_parse _) = "dictionary-parse-error"
problem_slug (internal _) = "internal-error"
problem_slug unauthorized = "unauthorized"
problem_slug forbidden = "forbidden"
problem_slug (rate_limited _) = "rate-limited"
problem_slug not_found = "not-found"
problem_slug quota_exceeded = "quota-exceeded"
problem_slug (unsupported_language _) = "unsupported-language"
problem_slug (invalid_date_range _) = "invalid-date-range"

abbrev pub problem_uri : String → String
problem_uri slug =
    "https://github.com/btafoya/rustspell-server/blob/main/docs/errors/" <> (slug <> ".md")

unfoldable pub problem_type : AppError → String
problem_type e = problem_uri (problem_slug e)

unfoldable pub title : AppError → String
title (validation _) = "Validation error"
title (json_rejection _) = "Invalid JSON"
title (dictionary_download _) = "Dictionary download error"
title (dictionary_parse _) = "Dictionary parse error"
title (internal _) = "Internal server error"
title unauthorized = "Unauthorized"
title forbidden = "Forbidden"
title (rate_limited _) = "Too many requests"
title not_found = "Not found"
title quota_exceeded = "Quota exceeded"
title (unsupported_language _) = "Unsupported language"
title (invalid_date_range _) = "Invalid date range"

-- `to_string`, by the `#[error]` attributes.
unfoldable pub detail : AppError → String
detail (validation _) = "validation error"
detail (json_rejection _) = "invalid request body"
detail (dictionary_download m) = "dictionary download failed: " <> m
detail (dictionary_parse m) = "dictionary parse failed: " <> m
detail (internal m) = "internal error: " <> m
detail unauthorized = "missing or invalid API key"
detail forbidden = "insufficient permissions for this key"
detail (rate_limited _) = "too many failed authentication attempts"
detail not_found = "resource not found"
detail quota_exceeded = "tenant request quota exceeded"
detail (unsupported_language m) = "unsupported language: " <> m
detail (invalid_date_range m) = "invalid date range: " <> m

pub record ProblemDetails : Type 0 where
  pub type_uri : String
  pub title : String
  pub status : ℕ
  pub detail : String

-- A response, as far as the middleware and the clients read it: the status, the body of an error,
-- the `ProblemSlug` and `ResolvedLanguage` extensions and the `Retry-After` header (a number,
-- which always makes a valid header value).
pub record Response : Type 0 where
  pub status : ℕ
  pub problem : Option ProblemDetails
  pub slug : Option String
  pub language : Option String
  pub retry_after : Option ℕ

abbrev retry_after_secs : AppError → Option ℕ
retry_after_secs (rate_limited secs) = some secs
retry_after_secs _ = none

unfoldable pub into_response : AppError → Response
into_response e = record {
  status = status_code e;
  problem = some (record {
    type_uri = problem_type e;
    title = title e;
    status = status_code e;
    detail = detail e;
  });
  slug = some (problem_slug e);
  language = none;
  retry_after = retry_after_secs e;
}
