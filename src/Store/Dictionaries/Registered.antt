-- ===== src/Store/Dictionaries/Registered.antt =====
-- src/store.rs: a dictionary that is registered again keeps its first time of creation.
use rustspell_server.Base.{
  String, ◌≡◌, refl, ap, ◌∙◌, inl, inr, Option, none, some, List, [], ◌∷◌, arith, find,
  if◌then◌else◌, Bool-cases, ◌==◌, string_eq, ==-refl,
}
use rustspell_server.Base.Int.{as_i64}
use rustspell_server.Base.Dict.{lookup-insert}
use rustspell_server.Store.Data.{
  DictionaryInfo, DictionaryRow, Store, Env, Outcome, ok, err, panic, dictionary_info_from_row,
}
use rustspell_server.Store.Dictionaries.{upsert_rows, remember, register_dictionary, get_dictionary}

abbrev pub row_at : String → List DictionaryRow → Option DictionaryRow
row_at code rows = find (λ r. r.code == code) rows

-- The row that an upsert of `row` leaves at its code: the old one with the new address, if there
-- was one.
abbrev pub merged : DictionaryRow → Option DictionaryRow → DictionaryRow
merged row none = row
merged row (some old) = record old { source_url = row.source_url }

row_at-upsert_rows :
    (row : DictionaryRow) (code : String) (rows : List DictionaryRow)
    → row_at code (upsert_rows row rows)
      ≡ (if row.code == code then some (merged row (row_at row.code rows)) else row_at code rows)
unfolding upsert_rows
row_at-upsert_rows row code [] = refl
row_at-upsert_rows row code (r ∷ rs) = ground (
  arith,
  string_eq.test_iff r.code row.code,
  string_eq.test_iff r.code code,
  string_eq.test_iff row.code code,
  row_at-upsert_rows row code rs,
)

abbrev pub new_row : Env → String → String → DictionaryRow
new_row env code source_url = record {
  code = code;
  source_url = source_url;
  created_at = as_i64 env.now;
}

-- What a registration has done, by its outcome.
abbrev pub Registers : Env → String → String → Store → Outcome DictionaryInfo → Type 0
Registers env code source_url s (ok info t) =
    (info
      ≡ dictionary_info_from_row
          (merged (new_row env code source_url) (row_at code s.db.dictionaries)))
    × ((c : String) → get_dictionary c t ≡ (if code == c then some info else get_dictionary c s))
Registers env code source_url s (err e t) = t.dictionaries ≡ s.dictionaries
Registers env code source_url s (panic e) = ⊥

merged-names :
    (row : DictionaryRow) (rows : List DictionaryRow)
    → ((merged row (row_at row.code rows)).code ≡ row.code)
      × ((merged row (row_at row.code rows)).source_url ≡ row.source_url)
merged-names row [] = (refl, refl)
merged-names row (r ∷ rs) = ground (arith, string_eq.test_iff r.code row.code, merged-names row rs)

-- The stored record has the code and the address that were given.
pub registered-names :
    (env : Env) (code source_url : String) (rows : List DictionaryRow) (info : DictionaryInfo)
    → info ≡ dictionary_info_from_row (merged (new_row env code source_url) (row_at code rows))
    → (info.code ≡ code) × (info.source_url ≡ source_url)
unfolding dictionary_info_from_row
registered-names env code source_url rows info e =
    let (c, u) = merged-names (new_row env code source_url) rows in
    (ap (λ i. i.code) e ∙ c, ap (λ i. i.source_url) e ∙ u)

-- A registration that succeeds returns and caches, at its code only, the stored record: the given
-- address, and the time of creation of the row that had this code before, if there was one. One
-- that fails leaves the cache alone.
pub register_dictionary-Registers :
    (env : Env) (code source_url : String) (s : Store)
    → Registers env code source_url s (register_dictionary env code source_url s)
unfolding register_dictionary remember get_dictionary
register_dictionary-Registers env code source_url s = elim (Bool-cases (env.sql_ok 0)) [
  | inr failed ↦ rw (failed, register_dictionary) refl
  | inl reached ↦ elim (Bool-cases (env.sql_ok 1)) [
    | inr unread ↦ rw (reached, unread, register_dictionary) refl
    | inl read ↦
        rw
          (
            reached,
            read,
            register_dictionary,
            row_at-upsert_rows (new_row env code source_url) code s.db.dictionaries,
            ==-refl code,
          )
          (refl, λ c. lookup-insert code c _ s.dictionaries)
  ]
]
