-- ===== src/Examples/Handlers.antt =====
-- src/handlers.rs, at concrete inputs.
use rustspell_server.Base.{
  String, ◌≡◌, refl, true, Option, none, some, [], ◌∷◌, ◌++◌, find, ◌==◌, string_eq,
}
use rustspell_server.Base.Text.{char_count}
use rustspell_server.Base.Int.{pos}
use rustspell_server.Base.Dict.{insert, lookup}
use rustspell_server.Dictionary.{
  aff, dic, path, path_eq, File, Net, received, ensure_dictionary, is_fresh, download,
  download_from, atomic_write,
}
use rustspell_server.Store.Dictionaries.{register_dictionary, upsert_rows, remember}
use rustspell_server.Error.{not_found}
use rustspell_server.Models.{
  Uri, CreateApiKeyRequest, validate_create_api_key_request, validate_add_dictionary_request,
  is_valid_language_code, byte_len, all_chars,
}
use rustspell_server.Store.Data.{dictionary_info_from_row, standard, as_str, KeyRecord, Store}
use rustspell_server.Store.Keys.{
  hash_key, generate_raw_key, insert_api_key, api_key_row, create_key, create_key_internal,
  list_keys,
}
use rustspell_server.Auth.Request.{UsageScope}
use rustspell_server.Usage.Windows.Ranges.{both}
use rustspell_server.Engine.Registry.{
  EngineError, Shared, new_registry, load, load_locked, load_from_paths,
}
use rustspell_server.Handlers.{answered, failed, parsed}
use rustspell_server.Handlers.Metadata.{
  dictionary_metadata, api_key_metadata, CreatedApiKeyResponse,
}
use rustspell_server.Handlers.Keys.{create_api_key, revoke_api_key, rotate_api_key}
use rustspell_server.Handlers.Answers.{unlisted_not_found, OpensOwn, create_api_key-OpensOwn}
use rustspell_server.Handlers.Usage.{usage_daily, usage_errors, usage_latency, usage_languages}
use rustspell_server.Handlers.Usage.Own.{own, usage-Own}
use rustspell_server.Handlers.Languages.{added, add_dictionary}
use rustspell_server.Handlers.Languages.Adding.{Adds, add_dictionary-Adds}
use rustspell_server.Examples.Data.{empty_store, codes, env_at}
use rustspell_server.Examples.TenantKeys.{store_t, store_b, key_b}
use rustspell_server.Examples.Content.{one_row}
use rustspell_server.Examples.Usage.{whole_floats}
use rustspell_server.Examples.Dictionary.{net, manager}

abbrev caller_u : KeyRecord
caller_u = record key_b { tenant_id = some "u" }

unlisted_is : find (λ (k : KeyRecord). k.id == "b") (list_keys "u" store_b) ≡ none
unfolding list_keys
unlisted_is = refl

unlisted_not_found_example :
    (revoke_api_key (env_at 200 "c") caller_u "b" store_b ≡ failed not_found store_b)
    × (rotate_api_key codes (env_at 200 "c") caller_u "b" store_b ≡ failed not_found store_b)
unlisted_not_found_example =
    unlisted_not_found codes (env_at 200 "c") caller_u "u" "b" store_b refl unlisted_is

abbrev wanted : CreateApiKeyRequest
wanted = record { label = "app"; role = standard; expires_at = none }

abbrev key_c : KeyRecord
key_c = record {
  id = "c";
  tenant_id = some "t";
  label = "app";
  role = standard;
  key_hash = "72736b5f6363";
  created_at = 200;
  expires_at = none;
  last_used_at = none;
  revoked_at = none;
}

abbrev store_c : Store
store_c = record store_b {
  db = record store_b.db { api_keys = store_b.db.api_keys ++ (api_key_row key_c ∷ []) };
  keys = (("72736b5f6262", key_b) ∷ ("72736b5f6363", key_c) ∷ []);
}

abbrev answer_c : CreatedApiKeyResponse
answer_c = record { metadata = api_key_metadata key_c; key = "rsk_cc" }

answer_is :
    create_api_key codes (env_at 200 "c") key_b (parsed wanted) store_b ≡ answered answer_c store_c
unfolding create_api_key create_key create_key_internal hash_key generate_raw_key insert_api_key
    api_key_row insert as_str validate_create_api_key_request char_count api_key_metadata
answer_is = refl

create_api_key-OpensOwn_example : OpensOwn codes key_b answer_c (env_at 300 "z") store_c
create_api_key-OpensOwn_example =
    create_api_key-OpensOwn codes (env_at 200 "c") (env_at 300 "z") key_b wanted store_b refl
      store_c answer_c answer_is

usage-Own_example :
    (usage_daily 1786795200 true store_t one_row
        (UsageScope.tenant "t")
        (both "2026-07-01" "2026-07-31")
      ≡ usage_daily 1786795200 true store_t
          (own "t" one_row)
          UsageScope.platform
          (both "2026-07-01" "2026-07-31"))
    × (usage_errors 1786795200 true store_t one_row
          (UsageScope.tenant "t")
          (both "2026-07-01" "2026-07-31")
        ≡ usage_errors 1786795200 true store_t
            (own "t" one_row)
            UsageScope.platform
            (both "2026-07-01" "2026-07-31"))
    × (usage_latency 1786795200 true store_t one_row
          (UsageScope.tenant "t")
          whole_floats
          (both "2026-07-01" "2026-07-31")
        ≡ usage_latency 1786795200 true store_t
            (own "t" one_row)
            UsageScope.platform
            whole_floats
            (both "2026-07-01" "2026-07-31"))
    × (usage_languages 1786795200 true store_t one_row
          (UsageScope.tenant "t")
          whole_floats
          (both "2026-07-01" "2026-07-31")
        ≡ usage_languages 1786795200 true store_t
            (own "t" one_row)
            UsageScope.platform
            whole_floats
            (both "2026-07-01" "2026-07-31"))
usage-Own_example =
    usage-Own whole_floats 1786795200 true store_t one_row "t" "2026-07-01" "2026-07-31"

abbrev pair_up : String → String → Option (String × String)
pair_up a d = some (a, d)

abbrev describe : EngineError → String
describe e = "unavailable"

abbrev alone : Shared (String × String) → Shared (String × String)
alone s = s

abbrev shared : Shared (String × String)
shared = record { registry = new_registry "en_US" ("a", "d") manager; files = [] }

abbrev parse_uri : String → Option Uri
parse_uri s = some (record { scheme = some "https"; authority = some "d"; path = "/" })

-- The network gives back the address that it is asked for.
abbrev echo : Net
echo = record net { attempt = λ url n. received url }

abbrev received_at : String → File
received_at url = record { contents = url; modified = some 1000 }

abbrev shared_french : Shared (String × String)
shared_french = record {
  registry = record {
    default_language = "en_US";
    dictionary_manager = manager;
    engines = ("en_US", ("a", "d")) ∷ ("fr", ("https://e/fr.aff", "https://e/fr.dic")) ∷ [];
  };
  files =
      (path "fr" aff, received_at "https://e/fr.aff")
      ∷ (path "fr" dic, received_at "https://e/fr.dic")
      ∷ [];
}

abbrev with_french : Store
with_french = record empty_store {
  db = record empty_store.db {
    dictionaries = record { code = "fr"; source_url = "https://e"; created_at = pos 5 } ∷ [];
  };
  dictionaries = (("fr", record { code = "fr"; source_url = "https://e"; created_at = 5 }) ∷ []);
}

addition_is :
    add_dictionary pair_up describe alone echo parse_uri
      (env_at 5 "x")
      (parsed ("fr", "https://e"))
      empty_store
      shared
    ≡ added
        (record { code = "fr"; source_url = "https://e"; created_at = 5 })
        with_french
        shared_french
unfolding add_dictionary validate_add_dictionary_request is_valid_language_code byte_len all_chars
    register_dictionary upsert_rows remember dictionary_info_from_row load load_locked
    load_from_paths ensure_dictionary is_fresh download download_from atomic_write new_registry
    dictionary_metadata insert lookup
addition_is = refl

add_dictionary-Adds_example :
    Adds pair_up describe alone echo parse_uri (env_at 5 "x") "fr" "https://e" empty_store shared (
      add_dictionary pair_up describe alone echo parse_uri
        (env_at 5 "x")
        (parsed ("fr", "https://e"))
        empty_store
        shared)
add_dictionary-Adds_example =
    add_dictionary-Adds pair_up describe alone echo parse_uri (env_at 5 "x") "fr" "https://e"
      empty_store shared
