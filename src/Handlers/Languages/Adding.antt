-- ===== src/Handlers/Languages/Adding.antt =====
-- src/handlers.rs: what the addition of a dictionary leaves behind.
use rustspell_server.Base.{String, ◌≡◌, refl, ◌∙◌, ◌⊎◌, inl, inr, Option, some, string_eq, ==-refl}
use rustspell_server.Models.{Validation, valid, invalid, Uri}
use rustspell_server.Store.Data.{Store, Env, DictionaryInfo, Outcome, ok, err, panic}
use rustspell_server.Store.Dictionaries.{get_dictionary}
use rustspell_server.Store.Dictionaries.Registered.{
  registered-names, Registers, register_dictionary-Registers,
}
use rustspell_server.Dictionary.{Net}
use rustspell_server.Engine.Registry.{EngineError, Shared, Loaded, loaded, load_failed}
use rustspell_server.Engine.Registry.Parsed.{IsParsed, Parses, load-Parses}
use rustspell_server.Handlers.{parsed}
use rustspell_server.Handlers.Metadata.{DictionaryMetadata, dictionary_metadata}
use rustspell_server.Handlers.Languages.{
  Added, added, not_added, add_panicked, or_not_added, load_registered, add_valid, add_dictionary,
}

module _ {E : Type 0} (parse_engine : String → String → Option E) (describe : EngineError → String)
    (others : Shared E → Shared E) (net : Net) (parse_uri : String → Option Uri) (env : Env)
    (code source_url : String) (store : Store) (s : Shared E) where
  -- An addition that succeeded: the answer is the record that the store then has for the code, with
  -- the address that was asked for, and the engine that now serves the language is what its two files
  -- parse to, which come from that address or were fresh.
  pub record IsAdded (m : DictionaryMetadata) (store' : Store) (s' : Shared E) : Type 0 where
    pub info : DictionaryInfo
    pub answer : m ≡ dictionary_metadata info
    pub has_code : info.code ≡ code
    pub has_url : info.source_url ≡ source_url
    pub registered : get_dictionary code store' ≡ some info
    pub engine : E
    pub parsed_from : IsParsed parse_engine net code source_url (others s) engine s'

  -- What an addition has done, by its outcome.
  abbrev pub Adds : Added E → Type 0
  Adds (added m store' s') = IsAdded m store' s'
  Adds (not_added e store' s') = (s' ≡ s) ⊎ (s'.registry ≡ (others s).registry)
  Adds (add_panicked e) = ⊥

  loaded-Adds :
      (info : DictionaryInfo) (store' : Store)
      → info.code ≡ code
      → info.source_url ≡ source_url
      → get_dictionary code store' ≡ some info
      → (l : Loaded E) → Parses parse_engine net code source_url (others s) l
      → Adds (or_not_added parse_engine describe others net info store' l)
  loaded-Adds info store' c u h (load_failed e s') p = inr p
  loaded-Adds info store' c u h (loaded engine s') p = record {
    info = info;
    answer = refl;
    has_code = c;
    has_url = u;
    registered = h;
    engine = engine;
    parsed_from = p;
  }

  registered-Adds :
      (o : Outcome DictionaryInfo)
      → Registers env code source_url store o
      → Adds (load_registered parse_engine describe others net code source_url s o)
  registered-Adds (err e store') r = inl refl
  registered-Adds (panic e) r = absurd r
  registered-Adds (ok info store') r =
      let (c, u) = registered-names env code source_url store.db.dictionaries info r.0 in
      loaded-Adds info store' c u (r.1 code ∙ rw (==-refl code) refl) _
        (load-Parses parse_engine others net code source_url s)

  valid-Adds :
      (v : Validation)
      → Adds (add_valid parse_engine describe others net env code source_url store s v)
  valid-Adds (invalid m) = inl refl
  valid-Adds valid = registered-Adds _ (register_dictionary-Registers env code source_url store)

  -- An addition that succeeds answers the record that the store then has at the code, with the code
  -- and the address that were asked for; and the engine that serves the language from then on is what
  -- the language's two files parse to, where these were fresh and stay as they were, or else are the
  -- downloads from that address. One that fails leaves the engines as they were, or as the tasks
  -- before it left them, and none panics.
  pub add_dictionary-Adds : Adds (
      add_dictionary parse_engine describe others net parse_uri env
        (parsed (code, source_url))
        store
        s)
  unfolding add_dictionary
  add_dictionary-Adds = valid-Adds _
