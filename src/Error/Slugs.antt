-- ===== src/Error/Slugs.antt =====
-- The identifiers of the errors in src/error.rs: one for each kind of error.
use rustspell_server.Base.{
  ℕ, suc, String, ◌≤◌, ◌<◌, ◌≡◌, ◌↔◌, refl, sym, ap, ◌∙◌, List, [], ◌∷◌, arith, if◌then◌else◌, ◌==◌,
  string_eq,
}
use rustspell_server.Error.{
  AppError, validation, json_rejection, dictionary_download, dictionary_parse, internal,
  unauthorized, forbidden, rate_limited, not_found, quota_exceeded, unsupported_language,
  invalid_date_range, status_code, problem_slug, problem_uri, problem_type,
}

-- The position of an error's variant in the enum.
abbrev pub kind : AppError → ℕ
kind (validation _) = 0
kind (json_rejection _) = 1
kind (dictionary_download _) = 2
kind (dictionary_parse _) = 3
kind (internal _) = 4
kind unauthorized = 5
kind forbidden = 6
kind (rate_limited _) = 7
kind not_found = 8
kind quota_exceeded = 9
kind (unsupported_language _) = 10
kind (invalid_date_range _) = 11

find_index : String → ℕ → List AppError → ℕ
unfolding problem_type problem_slug
find_index s n [] = n
find_index s n (e ∷ es) = if problem_type e == s then n else find_index s (suc n) es

abbrev variants : List AppError
variants =
    validation ""
    ∷ json_rejection ""
    ∷ dictionary_download ""
    ∷ dictionary_parse ""
    ∷ internal ""
    ∷ unauthorized
    ∷ forbidden
    ∷ rate_limited 0
    ∷ not_found
    ∷ quota_exceeded
    ∷ unsupported_language ""
    ∷ invalid_date_range ""
    ∷ []

find_index-problem_type : (e : AppError) → find_index (problem_type e) 0 variants ≡ kind e
unfolding find_index
find_index-problem_type (validation _) = refl
find_index-problem_type _ = refl

slug_of_kind : ℕ → String
unfolding problem_slug
slug_of_kind n = nth n variants
  where
    nth : ℕ → List AppError → String
    nth n [] = ""
    nth ℕ.zero (e ∷ es) = problem_slug e
    nth (ℕ.suc n) (e ∷ es) = nth n es

slug_of_kind-kind : (e : AppError) → slug_of_kind (kind e) ≡ problem_slug e
unfolding slug_of_kind
slug_of_kind-kind (validation _) = refl
slug_of_kind-kind _ = refl

-- Two errors have the same documentation URI exactly when they are of the same variant: no two
-- variants share a page, and what an error carries does not change it.
pub problem_type_iff : (a b : AppError) → (problem_type a ≡ problem_type b) ↔ (kind a ≡ kind b)
unfolding problem_type
problem_type_iff a b = (
  λ p.
      sym (find_index-problem_type a)
      ∙ ap (λ t. find_index t 0 variants) p
      ∙ find_index-problem_type b,
  λ p.
      ap (λ s. problem_uri s) (sym (slug_of_kind-kind a) ∙ ap slug_of_kind p ∙ slug_of_kind-kind b),
)

-- Every error answers with a status of the 4xx or 5xx classes, as usage accounting presumes.
pub status_range : (e : AppError) → (400 ≤ status_code e) × (status_code e < 600)
unfolding status_code
status_range (validation _) = omega arith
status_range _ = omega arith
