-- ===== src/Examples/Dictionary.antt =====
-- The cache of dictionaries and the engines, at concrete inputs.
use rustspell_server.Base.{
  ℕ, zero, suc, String, ◌≡◌, refl, true, Option, none, some, [], ◌∷◌, string_eq,
}
use rustspell_server.Base.Dict.{lookup, insert}
use rustspell_server.Dictionary.{
  aff, dic, path, path_eq, File, Fetched, received, transient, Net, DictionaryManager,
  ensure_dictionary, download, download_from, is_fresh, atomic_write,
}
use rustspell_server.Dictionary.Cache.{IsWhole, files_after, ensure_dictionary-IsWhole}
use rustspell_server.Engine.Registry.{
  Shared, new_registry, default_engine, loaded, load, get_or_load, load_locked, load_from_paths,
}
use rustspell_server.Engine.Registry.Loads.{HasDefault, shared_after, get_or_load-HasDefault}

-- The second try succeeds.
abbrev second_try : String → ℕ → Fetched
second_try url zero = transient
second_try url (suc n) = received "contents"

abbrev pub net : Net
net = record { now = 1000; attempt = second_try; dir_ok = true; write_ok = λ p. true }

abbrev pub manager : DictionaryManager
manager = record { base_url = "https://d"; refresh_interval = 10 }

download_runs : download net "u" ≡ record { contents = some "contents"; delays = 250 ∷ [] }
unfolding download download_from
download_runs = refl

ensure_dictionary-IsWhole_example :
    IsWhole net "https://d"
      (path "fr" aff)
      (lookup (path "fr" aff) [])
      (lookup (path "fr" aff) (files_after (ensure_dictionary manager net "fr" none [])))
ensure_dictionary-IsWhole_example =
    ensure_dictionary-IsWhole manager net "fr" none [] (path "fr" aff)

-- An engine is the contents of its two files.
abbrev pair_up : String → String → Option (String × String)
pair_up a d = some (a, d)

abbrev shared : Shared (String × String)
shared = record { registry = new_registry "en_US" ("a", "d") manager; files = [] }

abbrev alone : Shared (String × String) → Shared (String × String)
alone s = s

shared-HasDefault : HasDefault shared.registry
unfolding default_engine new_registry insert lookup
shared-HasDefault = refl

get_or_load-HasDefault_example :
    HasDefault (shared_after (get_or_load pair_up alone net "fr" none shared)).registry
    × HasDefault (shared_after (load pair_up alone net "fr" none shared)).registry
get_or_load-HasDefault_example =
    get_or_load-HasDefault pair_up alone (λ s h. h) net "fr" none shared shared-HasDefault

abbrev fr_file : File
fr_file = record { contents = "contents"; modified = some 1000 }

abbrev shared' : Shared (String × String)
shared' = record {
  registry = record shared.registry {
    engines = ("en_US", ("a", "d")) ∷ ("fr", ("contents", "contents")) ∷ [];
  };
  files = (path "fr" aff, fr_file) ∷ (path "fr" dic, fr_file) ∷ [];
}

first_load :
    get_or_load pair_up alone net "fr" none shared ≡ loaded ("contents", "contents") shared'
unfolding get_or_load load_locked load_from_paths ensure_dictionary is_fresh atomic_write download
    download_from insert lookup new_registry
first_load = refl
