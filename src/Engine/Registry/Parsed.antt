-- ===== src/Engine/Registry/Parsed.antt =====
-- src/engine.rs: the engine that a load keeps is the one that the files of its language parse to.
use rustspell_server.Base.{String, ◌≡◌, refl, sym, subst, ==-refl, Option, none, some, string_eq}
use rustspell_server.Base.Dict.{lookup, lookup-insert}
use rustspell_server.Dictionary.{
  aff, dic, FilePath, path, path_eq, File, Files, Net, Ensured, done, error,
}
use rustspell_server.Dictionary.Sources.{Origin, Supplies, ensure_dictionary-Supplies}
use rustspell_server.Engine.Registry.{
  parse_error, Shared, Loaded, loaded, load_failed, parse_files, load_from_paths, keep,
  load_ensured, load_locked, load,
}

module _ {E : Type 0} (parse_engine : String → String → Option E) (net : Net) (language : String)
    (url : String) (before : Shared E) where
  abbrev pub Comes : Files → Type 0
  Comes = Origin before.registry.dictionary_manager net url language before.files

  -- An engine is parsed from the language's two files, which come from that address or were fresh,
  -- and serves the language from then on.
  pub record IsParsed (engine : E) (after : Shared E) : Type 0 where
    pub aff_file : File
    pub dic_file : File
    pub aff_there : lookup (path language aff) after.files ≡ some aff_file
    pub dic_there : lookup (path language dic) after.files ≡ some dic_file
    pub parses : parse_engine aff_file.contents dic_file.contents ≡ some engine
    pub comes : Comes after.files
    pub serves : lookup language after.registry.engines ≡ some engine

  -- What a load has done: one that fails leaves the engines alone.
  abbrev pub Parses : Loaded E → Type 0
  Parses (loaded engine after) = IsParsed engine after
  Parses (load_failed e after) = after.registry ≡ before.registry

  parsed_files :
      (files : Files) (a d : Option File)
      → Comes files
      → lookup (path language aff) files ≡ a
      → lookup (path language dic) files ≡ d
      → Parses (
          keep parse_engine language before.registry files
            (parse_files parse_engine (path language aff) (path language dic) a d))
  parsed_files files none d c ea ed = refl
  parsed_files files (some a) none c ea ed = refl
  parsed_files files (some a) (some d) c ea ed = read (parse_engine a.contents d.contents) refl
    where
      read :
          (o : Option E)
          → parse_engine a.contents d.contents ≡ o
          → Parses (keep parse_engine language before.registry files (o, parse_error))
      read none e = refl
      read (some engine) e = record {
        aff_file = a;
        dic_file = d;
        aff_there = ea;
        dic_there = ed;
        parses = e;
        comes = c;
        serves =
            rw (lookup-insert language language engine before.registry.engines, ==-refl language)
              refl;
      }

  supplied :
      (e : Ensured (FilePath × FilePath))
      → Supplies before.registry.dictionary_manager net url language before.files e
      → Parses (load_ensured parse_engine language before.registry e)
  unfolding load_from_paths
  supplied (error e files) h = refl
  supplied (done paths files) h =
      subst
        (λ ps. Parses (
          keep parse_engine language before.registry files
            (load_from_paths parse_engine ps.0 ps.1 files)))
        (sym h.0) (parsed_files files _ _ h.1 refl refl)

-- A load for an address: what it does to the engines and the files that it finds once it has the lock.
pub load-Parses :
    {E : Type 0} (parse_engine : String → String → Option E) (others : Shared E → Shared E)
    (net : Net) (language url : String) (s : Shared E)
    → Parses parse_engine net language url
        (others s)
        (load parse_engine others net language (some url) s)
unfolding load load_locked
load-Parses parse_engine others net language url s =
    supplied parse_engine net language url (others s) _ (
      ensure_dictionary-Supplies (others s).registry.dictionary_manager net language (some url)
        (others s).files)
