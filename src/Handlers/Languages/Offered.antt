-- ===== src/Handlers/Languages/Offered.antt =====
-- src/handlers.rs: what the list of languages says of each.
use rustspell_server.Base.{
  String, ◌≡◌, refl, sym, ◌∙◌, Bool, true, false, ◌||◌, Option, none, some, List, [], ◌∷◌,
  string_eq, ◌==◌, any, All, arith, if◌then◌else◌, Bool-cases, inl, inr,
}
use rustspell_server.Base.Dict.{Dict, lookup, insert, lookup-insert}
use rustspell_server.Base.Dict.Distinct.{IsDistinct, insert-IsDistinct, All-values}
use rustspell_server.Base.Sort.{All-sort_by, IsSorted, IsOrder, sort_by-IsSorted}
use rustspell_server.Usage.Rollup.Query.{text_leb_trans, text_leb_total}
use rustspell_server.Store.Data.{DictionaryInfo, Store}
use rustspell_server.Store.Dictionaries.{list_dictionaries}
use rustspell_server.Handlers.Languages.{
  LanguageInfo, cached_info, note_cached, mark, note_registered, by_code, list_languages,
}

abbrev pub is_cached : String → List String → Bool
is_cached code codes = any (λ c. c == code) codes

abbrev pub is_registered : String → List DictionaryInfo → Bool
is_registered code ds = any (λ (d : DictionaryInfo). d.code == code) ds

-- The flags of an entry say where its code stands.
abbrev pub IsDescribed : List String → List DictionaryInfo → LanguageInfo → Type 0
IsDescribed codes ds info =
    (info.cached ≡ is_cached info.code codes) × (info.registered ≡ is_registered info.code ds)

lookup-note_cached :
    (codes : List String) (m : Dict String LanguageInfo) (code : String)
    → lookup code (note_cached codes m)
      ≡ (if is_cached code codes then some (cached_info code) else lookup code m)
unfolding note_cached
lookup-note_cached [] m code = refl
lookup-note_cached (c ∷ codes) m code =
    lookup-note_cached codes (insert c (cached_info c) m) code
    ∙ rw (lookup-insert c code (cached_info c) m) (ground (arith, string_eq.test_iff c code))

mark-mark : (code : String) (o : Option LanguageInfo) → mark code (some (mark code o)) ≡ mark code o
mark-mark code none = refl
mark-mark code (some info) = refl

-- A code is noted at once or later.
note_one :
    (own code : String) (b : Bool) (m : Dict String LanguageInfo)
    → (if b
        then some
            (mark code (if own == code then some (mark own (lookup own m)) else lookup code m))
        else (if own == code then some (mark own (lookup own m)) else lookup code m))
      ≡ (if (own == code) || b then some (mark code (lookup code m)) else lookup code m)
note_one own code b m = elim (Bool-cases (own == code)) [
  | inl here ↦
      let same : own ≡ code = (string_eq.test_iff own code).0 here in
      rw (here, same) (ground (arith, mark-mark code (lookup code m)))
  | inr other ↦ rw other refl
]

lookup-note_registered :
    (ds : List DictionaryInfo) (m : Dict String LanguageInfo) (code : String)
    → lookup code (note_registered ds m)
      ≡ (if is_registered code ds then some (mark code (lookup code m)) else lookup code m)
unfolding note_registered
lookup-note_registered [] m code = refl
lookup-note_registered (d ∷ ds) m code =
    lookup-note_registered ds _ code
    ∙ rw (lookup-insert d.code code (mark d.code (lookup d.code m)) m)
        (note_one d.code code (is_registered code ds) m)

note_cached-IsDistinct :
    (codes : List String) (m : Dict String LanguageInfo)
    → IsDistinct m
    → IsDistinct (note_cached codes m)
unfolding note_cached
note_cached-IsDistinct [] m d = d
note_cached-IsDistinct (c ∷ codes) m d = note_cached-IsDistinct codes _ (insert-IsDistinct _ _ m d)

note_registered-IsDistinct :
    (ds : List DictionaryInfo) (m : Dict String LanguageInfo)
    → IsDistinct m
    → IsDistinct (note_registered ds m)
unfolding note_registered
note_registered-IsDistinct [] m d = d
note_registered-IsDistinct (x ∷ ds) m d =
    note_registered-IsDistinct ds _ (insert-IsDistinct _ _ m d)

abbrev entry_of : String → Bool → Bool → Option LanguageInfo
entry_of code here noted =
    let first = if here then some (cached_info code) else none in
    if noted then some (mark code first) else first

entry_of-flags :
    (code : String) (here noted : Bool) (info : LanguageInfo)
    → entry_of code here noted ≡ some info
    → (info.code ≡ code) × (info.cached ≡ here) × (info.registered ≡ noted)
entry_of-flags code true true info h = ground (arith, h)
entry_of-flags code true false info h = ground (arith, h)
entry_of-flags code false true info h = ground (arith, h)
entry_of-flags code false false info h = absurd (cc)

described :
    (codes : List String) (ds : List DictionaryInfo) (code : String) (info : LanguageInfo)
    → lookup code (note_registered ds (note_cached codes [])) ≡ some info
    → IsDescribed codes ds info
unfolding lookup
described codes ds code info h =
    let entry : lookup code (note_registered ds (note_cached codes []))
        ≡ entry_of code (is_cached code codes) (is_registered code ds) =
      lookup-note_registered ds (note_cached codes []) code
      ∙ rw (lookup-note_cached codes [] code) refl in
    let flags =
      entry_of-flags code (is_cached code codes) (is_registered code ds) info (sym entry ∙ h) in
    simp (flags.0) (flags.1, flags.2)

by_code-IsOrder : IsOrder by_code
by_code-IsOrder = record {
  total = λ a b. text_leb_total a.code b.code;
  trans = λ a b c. text_leb_trans a.code b.code c.code;
}

-- The list is in order, and each entry's flags say whether its files are in the cache and whether it is registered.
pub list_languages-IsDescribed :
    (codes : List String) (s : Store)
    → IsSorted by_code (list_languages codes s)
      × All (IsDescribed codes (list_dictionaries s)) (list_languages codes s)
unfolding list_languages
list_languages-IsDescribed codes s =
    let ds = list_dictionaries s in
    (
      sort_by-IsSorted by_code by_code-IsOrder _,
      All-sort_by by_code (IsDescribed codes ds) _ (
          All-values (IsDescribed codes ds) _
            (note_registered-IsDistinct ds _ (note_cached-IsDistinct codes [] tt))
            (described codes ds)),
    )
