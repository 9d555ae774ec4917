-- ===== src/Store/Dictionaries.antt =====
-- src/store.rs: the registered dictionaries.
pub mod Registered
use rustspell_server.Base.{
  ℕ, String, ◌≡◌, Bool, true, false, Option, none, some, List, [], ◌∷◌, find, if◌then◌else◌, ◌==◌,
  string_eq,
}
use rustspell_server.Base.Int.{as_i64}
use rustspell_server.Base.Dict.{Dict, values, lookup, insert}
use rustspell_server.Store.Data.{
  DictionaryInfo, DictionaryRow, Db, Store, Env, Outcome, ok, err, panic, M, ◌>>=◌, ◌>>◌, return,
  modify_store, execute, fetch, dictionary_info_from_row,
}

-- `INSERT … ON CONFLICT (code) DO UPDATE SET source_url = excluded.source_url`
unfoldable pub upsert_rows : DictionaryRow → List DictionaryRow → List DictionaryRow
upsert_rows row [] = row ∷ []
upsert_rows row (r ∷ rs) =
    if r.code == row.code
    then record r { source_url = row.source_url } ∷ rs
    else r ∷ upsert_rows row rs

abbrev pub upsert_dictionary : DictionaryRow → Db → Option Db
upsert_dictionary row db = some (record db { dictionaries = upsert_rows row db.dictionaries })

-- The row that is read back is what the caller gets and what the cache keeps.
unfoldable pub remember : String → Option DictionaryRow → M DictionaryInfo
remember code none s = err "no rows returned" s
remember code (some row) s =
    ok (dictionary_info_from_row row)
      (record s { dictionaries = insert code (dictionary_info_from_row row) s.dictionaries })

unfoldable pub register_dictionary : Env → String → String → M DictionaryInfo
register_dictionary env code source_url = do
  execute (env.sql_ok 0) (
      upsert_dictionary
        (record { code = code; source_url = source_url; created_at = as_i64 env.now }))
  row ← fetch (env.sql_ok 1) (λ db. find (λ r. r.code == code) db.dictionaries)
  remember code row

unfoldable pub list_dictionaries : Store → List DictionaryInfo
list_dictionaries s = values s.dictionaries

unfoldable pub get_dictionary : String → Store → Option DictionaryInfo
get_dictionary code s = lookup code s.dictionaries
