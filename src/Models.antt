-- ===== src/Models.antt =====
-- src/models.rs: the requests and their validation. An error is its code. The parser of a URI is the
-- `http` crate's, a parameter here; the lengths of the `validate` attributes count characters.
pub mod Accepted
use Prim.Native.Char.{Char, code}
use rustspell_server.Base.{
  ℕ, ◌+◌, String, ◌≡◌, Bool, true, false, not, ◌&&◌, ◌||◌, Option, none, some, List, [], ◌∷◌,
  length, leb, ltb, eqb, if◌then◌else◌, is_none, is_some, ◌==◌, string_eq,
}
use rustspell_server.Base.Text.{char_count, is_digit, is_empty}
use rustspell_server.Store.Data.{Role, platform, role_beq}

abbrev pub is_ascii_alphanumeric : Char → Bool
is_ascii_alphanumeric c =
    is_digit c || (leb 65 (code c) && leb (code c) 90) || (leb 97 (code c) && leb (code c) 122)

-- A letter, a digit, `_` or `-`.
abbrev pub is_code_char : Char → Bool
is_code_char c = is_ascii_alphanumeric c || eqb (code c) 95 || eqb (code c) 45

-- `len()` counts the bytes of the UTF-8 form.
abbrev pub utf8_len : Char → ℕ
utf8_len c =
    if ltb (code c) 0x80
    then 1
    else if ltb (code c) 0x800
    then 2
    else if ltb (code c) 0x10000
    then 3
    else 4

unfoldable pub byte_len : String → ℕ
byte_len String.[] = 0
byte_len (String.◌∷◌ c s) = utf8_len c + byte_len s

unfoldable pub all_chars : (Char → Bool) → String → Bool
all_chars p String.[] = true
all_chars p (String.◌∷◌ c s) = p c && all_chars p s

unfoldable pub is_valid_language_code : String → Bool
is_valid_language_code language =
    not (is_empty language) && leb (byte_len language) 20 && all_chars is_code_char language

abbrev pub language_ok : Option String → Bool
language_ok none = true
language_ok (some language) = is_valid_language_code language

pub data Validation : Type 0 where
  valid : Validation
  invalid : String → Validation

pub record SpellCheckRequest : Type 0 where
  pub text : Option String
  pub words : Option (List String)
  pub language : Option String

unfoldable pub has_input_validation : SpellCheckRequest → Validation
has_input_validation req =
    if is_none req.text && is_none req.words
    then invalid "missing_input"
    else if not (language_ok req.language)
    then invalid "invalid_language"
    else valid

-- `length(min, max)` of the `validate` attribute.
abbrev pub length_in : ℕ → ℕ → String → Bool
length_in lo hi s = leb lo (char_count s) && leb (char_count s) hi

abbrev pub text_fits : Option String → Bool
text_fits none = true
text_fits (some text) = length_in 0 10000 text

abbrev pub words_fit : Option (List String) → Bool
words_fit none = true
words_fit (some words) = leb (length words) 1000

-- The attributes of the fields and the function of the schema.
unfoldable pub validate_spell_check_request : SpellCheckRequest → Validation
validate_spell_check_request req =
    if not (text_fits req.text && words_fit req.words)
    then invalid "length"
    else has_input_validation req

pub record CreateApiKeyRequest : Type 0 where
  pub label : String
  pub role : Role
  pub expires_at : Option ℕ

-- The attribute of the field and the function of the schema.
unfoldable pub validate_create_api_key_request : CreateApiKeyRequest → Validation
validate_create_api_key_request req =
    if not (length_in 1 100 req.label)
    then invalid "length"
    else if role_beq req.role platform
    then invalid "invalid_role"
    else valid

pub record CreateTenantRequest : Type 0 where
  pub name : String
  pub language : Option String
  pub quota_limit : Option ℕ
  pub period_start : Option ℕ
  pub period_end : Option ℕ

unfoldable pub validate_create_tenant_request : CreateTenantRequest → Validation
validate_create_tenant_request req =
    if not (length_in 1 200 req.name)
    then invalid "length"
    else if not (language_ok req.language)
    then invalid "invalid_language"
    else valid

pub record UpdateTenantRequest : Type 0 where
  pub name : Option String
  pub language : Option String
  pub quota_limit : Option ℕ
  pub request_count : Option ℕ
  pub period_start : Option (Option ℕ)
  pub period_end : Option (Option ℕ)

abbrev pub name_ok : Option String → Bool
name_ok none = true
name_ok (some name) = length_in 1 200 name

unfoldable pub validate_update_tenant_request : UpdateTenantRequest → Validation
validate_update_tenant_request req =
    if not (name_ok req.name)
    then invalid "length"
    else if not (language_ok req.language)
    then invalid "invalid_language"
    else valid

pub record Uri : Type 0 where
  pub scheme : Option String
  pub authority : Option String
  pub path : String

abbrev pub is_http : Option String → Bool
is_http scheme = elim scheme [ none ↦ false | some s ↦ s == "http" || s == "https" ]

module _ (parse_uri : String → Option Uri) where
  abbrev pub origin_ok : Option Uri → Bool
  origin_ok none = false
  origin_ok (some uri) =
      is_http uri.scheme && is_some uri.authority && (uri.path == "" || uri.path == "/")

  unfoldable pub validate_register_origin_request : String → Validation
  validate_register_origin_request origin =
      if not (origin_ok (parse_uri origin)) then invalid "invalid_origin" else valid

  abbrev pub url_ok : Option Uri → Bool
  url_ok none = false
  url_ok (some uri) = is_http uri.scheme && is_some uri.authority

  unfoldable pub validate_add_dictionary_request : String → String → Validation
  validate_add_dictionary_request dictionary_code source_url =
      if not (is_valid_language_code dictionary_code)
      then invalid "invalid_code"
      else if not (url_ok (parse_uri source_url))
      then invalid "invalid_source_url"
      else valid
