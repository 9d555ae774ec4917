-- ===== src/Engine/Registry.antt =====
-- src/engine.rs: the engines by language. `parse_engine` is the dictionary parser of spellbook. A load
-- waits for the lock: `others` is what the tasks before it do to the engines and the files meanwhile.
pub mod Loads
pub mod Parsed
use rustspell_server.Base.{String, Option, none, some, List, [], ◌∷◌, string_eq}
use rustspell_server.Base.Dict.{Dict, lookup, insert}
use rustspell_server.Dictionary.{
  FilePath, path_eq, File, Files, Net, DictionaryManager, DictionaryError, Ensured, done, error,
  ensure_dictionary, list_cached_languages,
}

pub data EngineError : Type 0 where
  read_error : FilePath → EngineError
  parse_error : EngineError
  dictionary_error : DictionaryError → EngineError

pub record EngineRegistry (E : Type 0) : Type 0 where
  pub default_language : String
  pub dictionary_manager : DictionaryManager
  pub engines : Dict String E

-- What the tasks share.
pub record Shared (E : Type 0) : Type 0 where
  pub registry : EngineRegistry E
  pub files : Files

pub data Loaded (E : Type 0) : Type 0 where
  loaded : E → Shared E → Loaded E
  load_failed : EngineError → Shared E → Loaded E

module _ {E : Type 0} where
  unfoldable pub new_registry : String → E → DictionaryManager → EngineRegistry E
  new_registry default_language engine dictionary_manager = record {
    default_language = default_language;
    dictionary_manager = dictionary_manager;
    engines = insert default_language engine [];
  }

  -- `none` is the panic of `expect`.
  unfoldable pub default_engine : EngineRegistry E → Option E
  default_engine r = lookup r.default_language r.engines

  abbrev pub put : String → E → EngineRegistry E → EngineRegistry E
  put language engine r = record r { engines = insert language engine r.engines }

  unfoldable pub replace : String → E → EngineRegistry E → EngineRegistry E
  replace language engine r = put language engine r

  -- The entry that serves a request without an address of its own.
  abbrev pub cached : String → Option String → Shared E → Option E
  cached language none s = lookup language s.registry.engines
  cached language (some url) s = none

  module _ (parse_engine : String → String → Option E) where
    abbrev pub parse_files :
        FilePath → FilePath → Option File → Option File → Option E × EngineError
    parse_files aff_path dic_path none _ = (none, read_error aff_path)
    parse_files aff_path dic_path (some a) none = (none, read_error dic_path)
    parse_files aff_path dic_path (some a) (some d) =
        (parse_engine a.contents d.contents, parse_error)

    -- The engine, or else the error.
    unfoldable pub load_from_paths : FilePath → FilePath → Files → Option E × EngineError
    load_from_paths aff_path dic_path files =
        parse_files aff_path dic_path (lookup aff_path files) (lookup dic_path files)

    abbrev pub keep : String → EngineRegistry E → Files → Option E × EngineError → Loaded E
    keep language r files (none, e) = load_failed e (record { registry = r; files = files })
    keep language r files (some engine, e) =
        loaded engine (record { registry = put language engine r; files = files })

    abbrev pub load_ensured : String → EngineRegistry E → Ensured (FilePath × FilePath) → Loaded E
    load_ensured language r (error e files) =
        load_failed (dictionary_error e) (record { registry = r; files = files })
    load_ensured language r (done paths files) =
        keep language r files (load_from_paths paths.0 paths.1 files)

    -- With the lock held.
    unfoldable pub load_locked : Net → String → Option String → Shared E → Loaded E
    load_locked net language source_url s =
        load_ensured language s.registry
          (ensure_dictionary s.registry.dictionary_manager net language source_url s.files)

    unfoldable pub load : (Shared E → Shared E) → Net → String → Option String → Shared E → Loaded E
    load others net language source_url s = load_locked net language source_url (others s)

    abbrev pub recheck : Net → String → Option String → Shared E → Option E → Loaded E
    recheck net language source_url s (some engine) = loaded engine s
    recheck net language source_url s none = load_locked net language source_url s

    abbrev pub wait :
        (Shared E → Shared E) → Net → String → Option String → Shared E → Option E → Loaded E
    wait others net language source_url s (some engine) = loaded engine s
    wait others net language source_url s none =
        recheck net language source_url (others s) (cached language source_url (others s))

    unfoldable pub get_or_load :
        (Shared E → Shared E) → Net → String → Option String → Shared E → Loaded E
    get_or_load others net language source_url s =
        wait others net language source_url s (cached language source_url s)
