-- ===== src/Handlers/Languages.antt =====
-- src/handlers.rs: the languages that the server offers, and the engine of a request. `describe` is
-- the text of an engine's error.
pub mod Offered
pub mod Adding
use rustspell_server.Base.{
  ℕ, String, Bool, true, false, Option, none, some, List, [], ◌∷◌, string_eq, ◌==◌, any,
}
use rustspell_server.Base.Dict.{Dict, values, lookup, insert}
use rustspell_server.Base.Sort.{sort_by}
use rustspell_server.Error.{AppError, json_rejection, validation, internal, unsupported_language}
use rustspell_server.Models.{Validation, valid, invalid, Uri, validate_add_dictionary_request}
use rustspell_server.Store.Data.{
  KeyRecord, Store, TenantInfo, DictionaryInfo, Env, Outcome, ok, err, panic,
}
use rustspell_server.Store.Tenants.{get_tenant}
use rustspell_server.Store.Dictionaries.{register_dictionary, list_dictionaries}
use rustspell_server.Usage.Rollup.{text_leb}
use rustspell_server.Dictionary.{Net, list_cached_languages}
use rustspell_server.Engine.Registry.{
  EngineError, Shared, Loaded, loaded, load_failed, load, get_or_load,
}
use rustspell_server.Handlers.Metadata.{DictionaryMetadata, dictionary_metadata}
use rustspell_server.Handlers.{tenant_message, Body, rejected, parsed}

pub record LanguageInfo : Type 0 where
  pub code : String
  pub cached : Bool
  pub registered : Bool

abbrev pub cached_info : String → LanguageInfo
cached_info code = record { code = code; cached = true; registered = false }

unfoldable pub note_cached : List String → Dict String LanguageInfo → Dict String LanguageInfo
note_cached [] m = m
note_cached (code ∷ codes) m = note_cached codes (insert code (cached_info code) m)

-- `and_modify(…).or_insert(…)`
abbrev pub mark : String → Option LanguageInfo → LanguageInfo
mark code none = record { code = code; cached = false; registered = true }
mark code (some info) = record info { registered = true }

unfoldable pub note_registered :
    List DictionaryInfo → Dict String LanguageInfo → Dict String LanguageInfo
note_registered [] m = m
note_registered (d ∷ ds) m = note_registered ds (insert d.code (mark d.code (lookup d.code m)) m)

abbrev pub by_code : LanguageInfo → LanguageInfo → Bool
by_code a b = text_leb a.code b.code

-- The values of a `BTreeMap` come in the order of their keys.
unfoldable pub list_languages : List String → Store → List LanguageInfo
list_languages cached s =
    sort_by by_code (values (note_registered (list_dictionaries s) (note_cached cached [])))

abbrev pub tenant_language : String → Option TenantInfo → String
tenant_language fallback none = fallback
tenant_language fallback (some t) = t.language

pub data Resolved (E : Type 0) : Type 0 where
  resolved : E → String → Shared E → Resolved E
  refused : AppError → Shared E → Resolved E
  panicked : String → Resolved E

pub data Added (E : Type 0) : Type 0 where
  added : DictionaryMetadata → Store → Shared E → Added E
  not_added : AppError → Store → Shared E → Added E
  add_panicked : String → Added E

module _ {E : Type 0} (parse_engine : String → String → Option E) (describe : EngineError → String)
    (others : Shared E → Shared E) (net : Net) where
  abbrev pub or_unsupported : String → Loaded E → Resolved E
  or_unsupported language (loaded engine s) = resolved engine language s
  or_unsupported language (load_failed e s) = refused (unsupported_language (describe e)) s

  unfoldable pub with_language : String → Shared E → Resolved E
  with_language language s =
      or_unsupported language (get_or_load parse_engine others net language none s)

  abbrev pub default_of_tenant : String → Store → Option String → Shared E → Resolved E
  default_of_tenant fallback store none s = panicked tenant_message
  default_of_tenant fallback store (some tenant_id) s =
      with_language (tenant_language fallback (get_tenant tenant_id store)) s

  -- `fallback` is the configured language.
  unfoldable pub resolve_engine : String → Store → KeyRecord → Option String → Shared E → Resolved E
  resolve_engine fallback store caller none s = default_of_tenant fallback store caller.tenant_id s
  resolve_engine fallback store caller (some language) s = with_language language s

  abbrev pub or_not_added : DictionaryInfo → Store → Loaded E → Added E
  or_not_added info store (loaded engine s) = added (dictionary_metadata info) store s
  or_not_added info store (load_failed e s) = not_added (unsupported_language (describe e)) store s

  abbrev pub load_registered : String → String → Shared E → Outcome DictionaryInfo → Added E
  load_registered code source_url s (ok info store) =
      or_not_added info store (load parse_engine others net code (some source_url) s)
  load_registered code source_url s (err e store) = not_added (internal e) store s
  load_registered code source_url s (panic e) = add_panicked e

  abbrev pub add_valid : Env → String → String → Store → Shared E → Validation → Added E
  add_valid env code source_url store s (invalid m) = not_added (validation m) store s
  add_valid env code source_url store s valid =
      load_registered code source_url s (register_dictionary env code source_url store)

  unfoldable pub add_dictionary :
      (String → Option Uri) → Env → Body (String × String) → Store → Shared E → Added E
  add_dictionary parse_uri env (rejected m) store s = not_added (json_rejection m) store s
  add_dictionary parse_uri env (parsed (code, source_url)) store s =
      add_valid env code source_url store s
        (validate_add_dictionary_request parse_uri code source_url)
