-- ===== src/Dictionary/Sources.antt =====
-- src/dictionary.rs: where the two files that `ensure_dictionary` gives back come from.
use rustspell_server.Base.{
  String, ◌≡◌, refl, true, false, ◌⊎◌, inl, inr, Option, none, some, Bool-cases, ==-refl, string_eq,
  ◌==◌, arith,
}
use rustspell_server.Base.Dict.{lookup, lookup-insert}
use rustspell_server.Dictionary.{
  aff, dic, FilePath, path, path_eq, File, Files, Net, DictionaryManager, Ensured, done, error,
  is_fresh, download, atomic_write, file_url, write_both, then_write, url_or, ensure_dictionary,
}

module _ (m : DictionaryManager) (net : Net) (base_url language : String) (files : Files) where
  abbrev pub written : String → Option File
  written d = some (record { contents = d; modified = some net.now })

  -- The files after a call that found a stale cache: both downloads, from that address.
  pub record Fetches (after : Files) : Type 0 where
    pub stale : is_fresh m net (path language aff) (path language dic) files ≡ false
    pub aff_data : String
    pub dic_data : String
    pub aff_from : (download net (file_url base_url language aff)).contents ≡ some aff_data
    pub dic_from : (download net (file_url base_url language dic)).contents ≡ some dic_data
    pub aff_is : lookup (path language aff) after ≡ written aff_data
    pub dic_is : lookup (path language dic) after ≡ written dic_data

  -- Fresh files stay as they are; else both files are downloads from that address.
  abbrev pub Origin : Files → Type 0
  Origin after =
      ((is_fresh m net (path language aff) (path language dic) files ≡ true) × (after ≡ files))
      ⊎ Fetches after

  abbrev pub Supplies : Ensured (FilePath × FilePath) → Type 0
  Supplies (error e after) = Unit
  Supplies (done paths after) = (paths ≡ (path language aff, path language dic)) × Origin after

  apart : (path language dic == path language aff) ≡ false
  apart = ground arith

  second_write :
      (a d : String)
      → is_fresh m net (path language aff) (path language dic) files ≡ false
      → (download net (file_url base_url language aff)).contents ≡ some a
      → (download net (file_url base_url language dic)).contents ≡ some d
      → (between : Files) → lookup (path language aff) between ≡ written a
      → Supplies (then_write net (path language dic) d (done tt between))
  unfolding atomic_write
  second_write a d stale ea ed between first =
      elim (Bool-cases (net.write_ok (path language dic))) [
        | inr refused ↦ rw (refused, Supplies, then_write) tt
        | inl allowed ↦
            rw (allowed, Supplies, then_write)
              (
                refl,
                inr (record {
                  stale = stale;
                  aff_data = a;
                  dic_data = d;
                  aff_from = ea;
                  dic_from = ed;
                  aff_is =
                      rw (lookup-insert (path language dic) (path language aff) _ between, apart)
                        first;
                  dic_is =
                      rw
                        (
                          lookup-insert (path language dic) (path language dic) _ between,
                          ==-refl (path language dic),
                        )
                        refl;
                }),
              )
      ]

  write_both-Supplies :
      (a d : Option String)
      → is_fresh m net (path language aff) (path language dic) files ≡ false
      → (download net (file_url base_url language aff)).contents ≡ a
      → (download net (file_url base_url language dic)).contents ≡ d
      → Supplies (write_both net base_url language files a d)
  unfolding atomic_write
  write_both-Supplies none d stale ea ed = tt
  write_both-Supplies (some a) none stale ea ed = tt
  write_both-Supplies (some a) (some d) stale ea ed =
      elim (Bool-cases (net.write_ok (path language aff))) [
        | inr refused ↦ rw (refused, Supplies) tt
        | inl allowed ↦ rw allowed (
            second_write a d stale ea ed _ (
              rw
                (
                  lookup-insert (path language aff) (path language aff) _ files,
                  ==-refl (path language aff),
                )
                refl))
      ]

-- However the call ends, the files that it gives back are the language's own two, fresh ones as they
-- were or the downloads from the address that was asked for.
pub ensure_dictionary-Supplies :
    (m : DictionaryManager) (net : Net) (language : String) (source_url : Option String)
    (files : Files)
    → Supplies m net
        (url_or source_url m.base_url)
        language
        files
        (ensure_dictionary m net language source_url files)
unfolding ensure_dictionary
ensure_dictionary-Supplies m net language source_url files =
    elim (Bool-cases (is_fresh m net (path language aff) (path language dic) files)) [
      | inl fresh ↦ rw fresh (refl, inl (fresh, refl))
      | inr stale ↦ elim (Bool-cases net.dir_ok) [
        | inl made ↦
            simp (stale, made)
              (write_both-Supplies m net (url_or source_url m.base_url) language files _ _ stale
                refl refl)
        | inr refused ↦ simp (stale, refused) tt
      ]
    ]
