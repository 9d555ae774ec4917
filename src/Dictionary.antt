-- ===== src/Dictionary.antt =====
-- src/dictionary.rs: the cache of dictionary files and their download. A path lies below the
-- directory of dictionaries, in the directory of its language. `Net` is what the file system and the
-- network do.
pub mod Download
pub mod Cache
pub mod Sources
use rustspell_server.Base.{
  ℕ, zero, suc, ◌+◌, ◌-◌, ◌*◌, ◌^◌, String, ◌<>◌, ◌≡◌, ◌↔◌, Bool, true, false, not, ◌&&◌, Option,
  none, some, List, [], ◌∷◌, arith, eqb, leb, if◌then◌else◌, Eq, ◌==◌, string_eq, is_some, retain,
}
use rustspell_server.Base.Dict.{Dict, lookup, insert}
use rustspell_server.Base.Sort.{sort_by}
use rustspell_server.Usage.Rollup.{text_leb}

pub data Extension : Type 0 where
  aff dic : Extension

abbrev pub extension_test : Extension → Extension → Bool
extension_test aff aff = true
extension_test dic dic = true
extension_test _ _ = false

pub record FilePath : Type 0 where
  pub language : String
  pub extension : Extension

abbrev pub path_test : FilePath → FilePath → Bool
path_test p q = p.language == q.language && extension_test p.extension q.extension

extension_test_iff : (a b : Extension) → (extension_test a b ≡ true) ↔ (a ≡ b)
extension_test_iff aff aff = ground arith
extension_test_iff dic dic = ground arith
extension_test_iff aff dic = ground arith
extension_test_iff dic aff = ground arith

pub path_test_iff : (p q : FilePath) → (path_test p q ≡ true) ↔ (p ≡ q)
path_test_iff p q =
    ground
      (arith, string_eq.test_iff p.language q.language, extension_test_iff p.extension q.extension)

instance abbrev pub path_eq : Eq FilePath
path_eq = record { test = path_test; test_iff = path_test_iff }

-- The time of the last change, in nanoseconds, where the file system tells it.
pub record File : Type 0 where
  pub contents : String
  pub modified : Option ℕ

abbrev pub Files : Type 0
Files = Dict FilePath File

-- One try to download.
pub data Fetched : Type 0 where
  received : String → Fetched
  transient permanent : Fetched

-- `attempt url n` is what the n-th try for an address gives.
pub record Net : Type 0 where
  pub now : ℕ
  pub attempt : String → ℕ → Fetched
  pub dir_ok : Bool
  pub write_ok : FilePath → Bool

pub record DictionaryManager : Type 0 where
  pub base_url : String
  pub refresh_interval : ℕ

pub data DictionaryError : Type 0 where
  download_error : String → DictionaryError
  create_dir_error : String → DictionaryError
  write_error : FilePath → DictionaryError

pub data Ensured {ℓ} (A : Type ℓ) : Type ℓ where
  done : A → Files → Ensured A
  error : DictionaryError → Files → Ensured A

abbrev pub fresh_file : ℕ → ℕ → Option File → Bool
fresh_file now interval none = false
fresh_file now interval (some f) = elim f.modified [
  | none ↦ false
  | some modified ↦ not (leb interval (now - modified))
]

unfoldable pub is_fresh : DictionaryManager → Net → FilePath → FilePath → Files → Bool
is_fresh m net aff_path dic_path files =
    fresh_file net.now m.refresh_interval (lookup aff_path files)
    && fresh_file net.now m.refresh_interval (lookup dic_path files)

abbrev pub retry_attempts : ℕ
retry_attempts = 5

abbrev pub retry_base_ms : ℕ
retry_base_ms = 250

-- The data or an error, and the times in milliseconds for which the loop slept.
pub record Downloaded : Type 0 where
  pub contents : Option String
  pub delays : List ℕ

abbrev pub slept : ℕ → Downloaded → Downloaded
slept delay d = record d { delays = delay ∷ d.delays }

-- The last try's failure is final; after another the loop sleeps.
abbrev pub after_transient : ℕ → ℕ → Downloaded → Downloaded
after_transient zero n rest = record { contents = none; delays = [] }
after_transient (suc left) n rest = slept (retry_base_ms * 2 ^ n) rest

-- The loop with `left` tries to go, at try `n`.
unfoldable pub download_from : (ℕ → Fetched) → ℕ → ℕ → Downloaded
download_from tries zero n = record { contents = none; delays = [] }
download_from tries (suc left) n = elim (tries n) [
  | received d ↦ record { contents = some d; delays = [] }
  | permanent ↦ record { contents = none; delays = [] }
  | transient ↦ after_transient left n (download_from tries left (n + 1))
]

-- A client that cannot be built is a permanent failure of the first try.
unfoldable pub download : Net → String → Downloaded
download net url = download_from (net.attempt url) retry_attempts 0

-- A new file is put in place of the old one by a rename.
unfoldable pub atomic_write : Net → FilePath → String → Files → Ensured (Unit {0})
atomic_write net dest contents files =
    if net.write_ok dest
    then done tt (insert dest (record { contents = contents; modified = some net.now }) files)
    else error (write_error dest) files

abbrev pub path : String → Extension → FilePath
path language extension = record { language = language; extension = extension }

abbrev pub file_url : String → String → Extension → String
file_url base_url language aff = base_url <> ("/" <> (language <> ".aff"))
file_url base_url language dic = base_url <> ("/" <> (language <> ".dic"))

abbrev pub then_write : Net → FilePath → String → Ensured (Unit {0}) → Ensured (FilePath × FilePath)
then_write net dest contents (error e files) = error e files
then_write net dest contents (done _ files) = elim (atomic_write net dest contents files) [
  | error e files' ↦ error e files'
  | done _ files' ↦ done (path dest.language aff, dest) files'
]

-- Both downloads come before the first write.
abbrev pub write_both :
    Net → String → String → Files → Option String → Option String → Ensured (FilePath × FilePath)
write_both net base_url language files none _ =
    error (download_error (file_url base_url language aff)) files
write_both net base_url language files (some aff_data) none =
    error (download_error (file_url base_url language dic)) files
write_both net base_url language files (some aff_data) (some dic_data) =
    then_write net (path language dic) dic_data
      (atomic_write net (path language aff) aff_data files)

abbrev pub url_or : Option String → String → String
url_or none base_url = base_url
url_or (some url) base_url = url

unfoldable pub ensure_dictionary :
    DictionaryManager → Net → String → Option String → Files → Ensured (FilePath × FilePath)
ensure_dictionary m net language source_url files =
    let base_url = url_or source_url m.base_url in
    if is_fresh m net (path language aff) (path language dic) files
    then done (path language aff, path language dic) files
    else if net.dir_ok
    then write_both net base_url language files
        (download net (file_url base_url language aff)).contents
        (download net (file_url base_url language dic)).contents
    else error (create_dir_error language) files

-- The languages of the directories that hold both files, in order.
unfoldable pub list_cached_languages : List String → Files → List String
list_cached_languages directories files = sort_by text_leb (
    retain
      (λ code. is_some (lookup (path code aff) files) && is_some (lookup (path code dic) files))
      directories)
