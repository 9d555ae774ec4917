-- ===== src/Examples/Content.antt =====
-- The rollup's tables, the validation of requests and the tokenizer, at concrete inputs.
use rustspell_server.Base.{
  String, ◌≡◌, ◌+◌, refl, true, false, string_eq, Option, none, some, [], ◌∷◌, any, is_none,
}
use rustspell_server.Base.Text.{char_count, is_space, starts_with}
use rustspell_server.Base.Dict.{lookup, insert}
use rustspell_server.Usage.Recorder.{daily_key, new_recorder, drain}
use rustspell_server.Usage.Recorder.Totals.{record_all}
use rustspell_server.Usage.Rollup.{UsageTables, flush_usage, text_leb}
use rustspell_server.Usage.Rollup.Flush.{Flushes, flush_usage-Flushes}
use rustspell_server.Models.{
  is_valid_language_code, byte_len, all_chars, valid, SpellCheckRequest, has_input_validation,
  CreateTenantRequest, validate_create_tenant_request, UpdateTenantRequest,
  validate_update_tenant_request, Uri, validate_add_dictionary_request,
}
use rustspell_server.Models.Accepted.{Segments, validated-Segments}
use rustspell_server.Engine.{
  strip_start, strip_end, strip_surrounding_punctuation, extend, tokens_of, tokenize, find_iter,
  text_tokens, note_tokens, note_words, spellcheck_positions_results,
}
use rustspell_server.Engine.Panics.{is_all_punctuation, tokenize_panics}
use rustspell_server.Engine.Runs.{skip, leading}
use rustspell_server.Engine.Positions.{
  runs_of, RunsStand, Reports, spellcheck_positions_results-Reports,
}
use rustspell_server.Examples.Gates.{sample}

abbrev no_rows : UsageTables
no_rows = record { daily = []; latency = [] }

flush_usage-Flushes_example :
    ((drain (record_all (sample ∷ []))).1 ≡ new_recorder)
    × Flushes (sample ∷ []) no_rows (
        flush_usage
          (λ n. true)
          (drain (record_all (sample ∷ []))).0.0
          (drain (record_all (sample ∷ []))).0.1
          no_rows)
flush_usage-Flushes_example = flush_usage-Flushes (λ n. true) (sample ∷ []) no_rows

abbrev pub one_row : UsageTables
one_row = record {
  daily = ((daily_key sample, record { request_count = 3; latency_sum_us = 9000 }) ∷ []);
  latency = [];
}

cutoff_first : text_leb "2026-05-01" "2026-06-01" ≡ true
unfolding text_leb
cutoff_first = refl

abbrev check_request : SpellCheckRequest
check_request = record { text = some "hello"; words = none; language = some "fr_FR" }

abbrev tenant_request : CreateTenantRequest
tenant_request = record {
  name = "Tee";
  language = some "fr_FR";
  quota_limit = none;
  period_start = none;
  period_end = none;
}

abbrev patch_request : UpdateTenantRequest
patch_request = record {
  name = none;
  language = some "de";
  quota_limit = none;
  request_count = none;
  period_start = none;
  period_end = none;
}

-- Each of the three requests passes.
all_pass :
    (has_input_validation check_request ≡ valid)
    × (validate_create_tenant_request tenant_request ≡ valid)
    × (validate_update_tenant_request patch_request ≡ valid)
unfolding has_input_validation validate_create_tenant_request validate_update_tenant_request
    char_count is_valid_language_code byte_len all_chars
all_pass = (refl, refl, refl)

validated-Segments_example :
    Segments check_request.language
    × Segments tenant_request.language
    × Segments patch_request.language
validated-Segments_example =
    validated-Segments check_request tenant_request patch_request all_pass.0 all_pass.1 all_pass.2

abbrev parse_any : String → Option Uri
parse_any s = some (record { scheme = some "https"; authority = some "d.example"; path = "/" })

dictionary_passes : validate_add_dictionary_request parse_any "fr_FR" "https://d.example/" ≡ valid
unfolding validate_add_dictionary_request is_valid_language_code byte_len all_chars
dictionary_passes = refl

-- A text on which the tokenizer panics.
panics : is_none (tokenize is_space "wait ...") ≡ true
unfolding tokenize tokens_of find_iter extend strip_surrounding_punctuation strip_start strip_end
panics = refl

tokenize_panics_example :
    is_none (tokenize is_space "wait ...")
    ≡ any is_all_punctuation (find_iter is_space 0 0 "wait ...")
tokenize_panics_example = tokenize_panics is_space "wait ..."

-- The run "(wrld)" is reported at 0, and its token stands at 1.
bracketed_is :
    spellcheck_positions_results (λ w. false) (λ w. []) is_space (some "(wrld) two") none
    ≡ some (
        ("wrld", record { positions = 0 ∷ []; suggestions = [] })
        ∷ ("two", record { positions = 7 ∷ []; suggestions = [] })
        ∷ [])
unfolding spellcheck_positions_results note_tokens note_words tokenize tokens_of find_iter extend
    strip_surrounding_punctuation strip_start strip_end insert lookup
bracketed_is = refl

bracketed_starts : starts_with "wrld" (skip (0 + leading "(wrld)") "(wrld) two") ≡ true
bracketed_starts = refl

spellcheck_positions_results-Reports_example :
    RunsStand is_space (some "(wrld) two wrld")
    × Reports
        (λ w. false)
        (λ w. [])
        (runs_of is_space (some "(wrld) two wrld"))
        (text_tokens is_space (some "(wrld) two wrld"))
        (spellcheck_positions_results
          (λ w. false)
          (λ w. [])
          is_space
          (some "(wrld) two wrld")
          (some ("two" ∷ [])))
spellcheck_positions_results-Reports_example =
    spellcheck_positions_results-Reports (λ w. false) (λ w. []) is_space (some "(wrld) two wrld")
      (some ("two" ∷ []))
