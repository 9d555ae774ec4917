-- ===== src/Dictionary/Cache.antt =====
-- src/dictionary.rs: what the cache holds after `ensure_dictionary`.
use rustspell_server.Base.{
  String, ◌≡◌, refl, ◌∙◌, subst, true, ◌⊎◌, inl, inr, Option, none, some, arith, Bool-cases,
  string_eq,
}
use rustspell_server.Base.Dict.{lookup, lookup-insert}
use rustspell_server.Dictionary.{
  aff, dic, FilePath, path, path_eq, File, Files, Net, DictionaryManager, Ensured, done, error,
  is_fresh, download, atomic_write, file_url, write_both, then_write, url_or, ensure_dictionary,
}

abbrev pub files_after {ℓ} : {A : Type ℓ} → Ensured A → Files
files_after (done a files) = files
files_after (error e files) = files

-- The contents at a path.
abbrev pub contents_of : Option File → Option String
contents_of none = none
contents_of (some f) = some f.contents

-- The contents at a path are those from before, or all of a download.
abbrev pub IsWhole : Net → String → FilePath → Option File → Option File → Type 0
IsWhole net base_url p before after =
    (after ≡ before)
    ⊎ ((d : String) × ((download net (file_url base_url p.language p.extension)).contents ≡ some d)
        × (after ≡ some (record { contents = d; modified = some net.now })))

IsWhole-trans :
    (net : Net) (base_url : String) (p : FilePath) (a b c : Option File)
    → IsWhole net base_url p a b
    → IsWhole net base_url p b c
    → IsWhole net base_url p a c
IsWhole-trans net base_url p a b c (inl same) (inl e) = inl (e ∙ same)
IsWhole-trans net base_url p a b c (inr new) (inl e) = inr (new.0, new.1, e ∙ new.2)
IsWhole-trans net base_url p a b c h (inr new) = inr new

-- What is written at a path is the download of its address.
abbrev FromNet : Net → String → FilePath → String → Type 0
FromNet net base_url dest d =
    (download net (file_url base_url dest.language dest.extension)).contents ≡ some d

write-IsWhole :
    (net : Net) (base_url : String) (dest : FilePath) (d : String) (files : Files) (p : FilePath)
    → FromNet net base_url dest d
    → IsWhole net base_url p
        (lookup p files)
        (lookup p (files_after (atomic_write net dest d files)))
unfolding atomic_write
write-IsWhole net base_url dest d files p from = elim (Bool-cases (net.write_ok dest)) [
  | inr refused ↦ rw refused (inl refl)
  | inl allowed ↦ elim (Bool-cases (path_eq.test dest p)) [
    | inl here ↦
        (let at : dest ≡ p = (path_eq.test_iff dest p).0 here in
          rw (allowed, lookup-insert dest p _ files, here)
            (inr (d, subst (λ q. FromNet net base_url q d) at from, refl)))
    | inr elsewhere ↦ rw (allowed, lookup-insert dest p _ files, elsewhere) (inl refl)
  ]
]

then_write-files :
    (net : Net) (dest : FilePath) (d : String) (files : Files)
    → files_after (then_write net dest d (done tt files))
      ≡ files_after (atomic_write net dest d files)
unfolding atomic_write
then_write-files net dest d files = ground arith

then_write-IsWhole :
    (net : Net) (base_url : String) (dest : FilePath) (d : String) (first : Ensured (Unit {0}))
    (p : FilePath) (before : Option File)
    → FromNet net base_url dest d
    → IsWhole net base_url p before (lookup p (files_after first))
    → IsWhole net base_url p before (lookup p (files_after (then_write net dest d first)))
then_write-IsWhole net base_url dest d (error e files) p before from h = h
then_write-IsWhole net base_url dest d (done _ files) p before from h =
    rw (then_write-files net dest d files)
      (IsWhole-trans net base_url p before _ _ h (write-IsWhole net base_url dest d files p from))

write_both-IsWhole :
    (net : Net) (base_url language : String) (files : Files) (p : FilePath) (a d : Option String)
    → (download net (file_url base_url language aff)).contents ≡ a
    → (download net (file_url base_url language dic)).contents ≡ d
    → IsWhole net base_url p
        (lookup p files)
        (lookup p (files_after (write_both net base_url language files a d)))
write_both-IsWhole net base_url language files p none d ea ed = inl refl
write_both-IsWhole net base_url language files p (some a) none ea ed = inl refl
write_both-IsWhole net base_url language files p (some a) (some d) ea ed =
    then_write-IsWhole net base_url (path language dic) d
      (atomic_write net (path language aff) a files) p _ ed
      (write-IsWhole net base_url (path language aff) a files p ea)

module _ (m : DictionaryManager) (net : Net) (language : String) (source_url : Option String)
    (files : Files) where
  -- A fresh copy is served as it is, whatever address is asked for.
  pub ensure_dictionary-fresh :
      is_fresh m net (path language aff) (path language dic) files ≡ true
      → ensure_dictionary m net language source_url files
        ≡ done (path language aff, path language dic) files
  unfolding ensure_dictionary
  ensure_dictionary-fresh h = rw h refl

  -- However it ends, every file is whole: as it was before, or the complete download of its own address.
  pub ensure_dictionary-IsWhole :
      (p : FilePath)
      → IsWhole net
          (url_or source_url m.base_url)
          p
          (lookup p files)
          (lookup p (files_after (ensure_dictionary m net language source_url files)))
  unfolding ensure_dictionary
  ensure_dictionary-IsWhole p =
      elim (Bool-cases (is_fresh m net (path language aff) (path language dic) files)) [
        | inl fresh ↦ rw fresh (inl refl)
        | inr stale ↦ elim (Bool-cases net.dir_ok) [
          | inl made ↦
              simp (stale, made)
                (write_both-IsWhole net (url_or source_url m.base_url) language files p _ _ refl
                  refl)
          | inr refused ↦ simp (stale, refused) (inl refl)
        ]
      ]
