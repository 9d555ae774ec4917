-- ===== src/Models/Accepted.antt =====
-- src/models.rs: what the requests that pass validation are.
use Prim.Native.Char.{code}
use rustspell_server.Base.{
  ◌≤◌, String, ◌≡◌, ◌≢◌, refl, ap, ◌⊎◌, inl, inr, true, false, Option, none, some, List, length,
  arith, is_some, Bool-cases, ◌==◌, string_eq,
}
use rustspell_server.Base.Text.{char_count, is_empty}
use rustspell_server.Store.Data.{Role, platform, role_beq}
use rustspell_server.Models.{
  is_code_char, byte_len, all_chars, is_valid_language_code, language_ok, valid, SpellCheckRequest,
  has_input_validation, text_fits, words_fit, validate_spell_check_request, CreateApiKeyRequest,
  validate_create_api_key_request, CreateTenantRequest, validate_create_tenant_request,
  UpdateTenantRequest, validate_update_tenant_request, Uri, is_http,
  validate_add_dictionary_request,
}

-- No character that has a meaning in a path or a URL: only letters, digits, `_` and `-`.
abbrev pub IsPlain : String → Type 0
IsPlain String.[] = Unit
IsPlain (String.◌∷◌ c s) =
    ((code c ≢ 47) × (code c ≢ 46) × (code c ≢ 92) × (code c ≢ 37) × (code c ≢ 58) × (code c ≤ 122))
    × IsPlain s

all_chars-IsPlain : (s : String) → all_chars is_code_char s ≡ true → IsPlain s
unfolding all_chars
all_chars-IsPlain String.[] h = tt
all_chars-IsPlain (String.◌∷◌ c s) h = (
  (
    λ e. ground arith,
    λ e. ground arith,
    λ e. ground arith,
    λ e. ground arith,
    λ e. ground arith,
    ground arith,
  ),
  all_chars-IsPlain s (ground arith),
)

all_chars-byte_len : (s : String) → all_chars is_code_char s ≡ true → byte_len s ≡ char_count s
unfolding all_chars byte_len char_count
all_chars-byte_len String.[] h = refl
all_chars-byte_len (String.◌∷◌ c s) h = ground (arith, all_chars-byte_len s)

-- A segment of a path: plain, and neither empty nor long.
abbrev pub IsSegment : String → Type 0
IsSegment s = IsPlain s × (1 ≤ char_count s) × (char_count s ≤ 20)

nonempty_count : (s : String) → is_empty s ≡ false → 1 ≤ char_count s
unfolding char_count
nonempty_count String.[] h = absurd (cc)
nonempty_count (String.◌∷◌ c s) h = omega arith

is_valid_language_code-IsSegment : (s : String) → is_valid_language_code s ≡ true → IsSegment s
unfolding is_valid_language_code
is_valid_language_code-IsSegment s h = (
  all_chars-IsPlain s (ground arith),
  nonempty_count s (ground arith),
  ground (arith, all_chars-byte_len s),
)

abbrev pub Segments : Option String → Type 0
Segments none = Unit
Segments (some s) = IsSegment s

language_ok-Segments : (o : Option String) → language_ok o ≡ true → Segments o
language_ok-Segments none h = tt
language_ok-Segments (some s) h = is_valid_language_code-IsSegment s h

-- The languages that a spell check, a new tenant and a patch name, where these pass validation,
-- have 1 to 20 characters, none of them above `z`, a slash, a backslash, a dot, a colon or a
-- percent sign.
pub validated-Segments :
    (check : SpellCheckRequest) (create : CreateTenantRequest) (update : UpdateTenantRequest)
    → has_input_validation check ≡ valid
    → validate_create_tenant_request create ≡ valid
    → validate_update_tenant_request update ≡ valid
    → Segments check.language × Segments create.language × Segments update.language
unfolding has_input_validation validate_create_tenant_request validate_update_tenant_request
validated-Segments check create update c n u = (
  language_ok-Segments check.language (ground arith),
  language_ok-Segments create.language (ground arith),
  language_ok-Segments update.language (ground arith),
)

abbrev TextFits : Option String → Type 0
TextFits none = Unit
TextFits (some text) = char_count text ≤ 10000

abbrev WordsFit : Option (List String) → Type 0
WordsFit none = Unit
WordsFit (some words) = length words ≤ 1000

text_fits-TextFits : (o : Option String) → text_fits o ≡ true → TextFits o
text_fits-TextFits none h = tt
text_fits-TextFits (some text) h = ground arith

words_fit-WordsFit : (o : Option (List String)) → words_fit o ≡ true → WordsFit o
words_fit-WordsFit none h = tt
words_fit-WordsFit (some words) h = ground arith

-- A spell check that passes validation passes the function of its schema, and has at most 10,000
-- characters of text and at most 1,000 words.
pub validate_spell_check_request-fits :
    (req : SpellCheckRequest)
    → validate_spell_check_request req ≡ valid
    → (has_input_validation req ≡ valid) × TextFits req.text × WordsFit req.words
unfolding validate_spell_check_request
validate_spell_check_request-fits req h = (
  ground arith,
  text_fits-TextFits req.text (ground arith),
  words_fit-WordsFit req.words (ground arith),
)

is_http-scheme : (o : Option String) → is_http o ≡ true → (o ≡ some "http") ⊎ (o ≡ some "https")
is_http-scheme none h = absurd (cc)
is_http-scheme (some s) h = elim (Bool-cases (s == "http")) [
  | inl plain ↦ inl (ap (λ t. some t) ((string_eq.test_iff s "http").0 plain))
  | inr other ↦ inr (ap (λ t. some t) ((string_eq.test_iff s "https").0 (ground arith)))
]

platform_refused : (r : Role) → r ≡ platform → role_beq r platform ≡ true
platform_refused r e = ap (λ q. role_beq q platform) e

-- A dictionary that passes validation has a code of 1 to 20 characters, none of them above `z`, a
-- slash, a backslash, a dot, a colon or a percent sign, and an address that parses as an http or
-- https URL with an authority.
pub validate_add_dictionary_request-IsSegment :
    (parse_uri : String → Option Uri) (dictionary_code source_url : String)
    → validate_add_dictionary_request parse_uri dictionary_code source_url ≡ valid
    → IsSegment dictionary_code
      × ((uri : Uri) × (parse_uri source_url ≡ some uri)
          × ((uri.scheme ≡ some "http") ⊎ (uri.scheme ≡ some "https"))
          × (is_some uri.authority ≡ true))
unfolding validate_add_dictionary_request
validate_add_dictionary_request-IsSegment parse_uri dictionary_code source_url h = (
  is_valid_language_code-IsSegment dictionary_code (ground arith),
  url (parse_uri source_url) refl,
)
  where
    url :
        (o : Option Uri)
        → parse_uri source_url ≡ o
        → (uri : Uri) × (parse_uri source_url ≡ some uri)
          × ((uri.scheme ≡ some "http") ⊎ (uri.scheme ≡ some "https"))
          × (is_some uri.authority ≡ true)
    url none e = absurd (ground arith)
    url (some uri) e = (uri, e, is_http-scheme uri.scheme (ground arith), ground arith)

-- No request that passes validation makes a platform key, and its label has 1 to 100 characters.
pub validate_create_api_key_request-label :
    (req : CreateApiKeyRequest)
    → validate_create_api_key_request req ≡ valid
    → (req.role ≢ platform) × (1 ≤ char_count req.label) × (char_count req.label ≤ 100)
unfolding validate_create_api_key_request
validate_create_api_key_request-label req h =
    (λ e. ground (arith, platform_refused req.role e), ground arith, ground arith)
