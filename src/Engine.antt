-- ===== src/Engine.antt =====
-- src/engine.rs: `Engine::tokenize`; src/handlers.rs: the loops of the two spell-check handlers. The
-- dictionary is the `spellbook` crate's, and what counts as white space (`\s`) the `regex` crate's: both
-- are parameters.
pub mod Panics
pub mod Runs
pub mod Positions
pub mod Registry
use Prim.Native.Char.{Char, code}
use rustspell_server.Base.{
  ℕ, zero, suc, ◌+◌, String, ◌≡◌, Bool, true, false, not, ◌&&◌, ◌||◌, Option, none, some, List, [],
  ◌∷◌, ◌++◌, map, any, eqb, if◌then◌else◌, ◌==◌, string_eq,
}
use rustspell_server.Base.Text.{is_empty}
use rustspell_server.Base.Dict.{Dict, lookup, insert}
use rustspell_server.Models.{utf8_len}

pub record Token : Type 0 where
  pub token : String
  pub start_byte : ℕ
  pub end_byte : ℕ
  pub start_char : ℕ

-- . , ; : ! ? " ' ( ) [ ] { }
abbrev punctuation : List ℕ
punctuation = 46 ∷ 44 ∷ 59 ∷ 58 ∷ 33 ∷ 63 ∷ 34 ∷ 39 ∷ 40 ∷ 41 ∷ 91 ∷ 93 ∷ 123 ∷ 125 ∷ []

abbrev pub is_punctuation : Char → Bool
is_punctuation c = any (λ p. eqb p (code c)) punctuation

unfoldable pub strip_start : String → String
strip_start String.[] = String.[]
strip_start (String.◌∷◌ c s) = if is_punctuation c then strip_start s else String.◌∷◌ c s

abbrev cons_stripped : Char → String → String
cons_stripped c String.[] = if is_punctuation c then String.[] else String.◌∷◌ c String.[]
cons_stripped c (String.◌∷◌ d s) = String.◌∷◌ c (String.◌∷◌ d s)

unfoldable pub strip_end : String → String
strip_end String.[] = String.[]
strip_end (String.◌∷◌ c s) = cons_stripped c (strip_end s)

abbrev stripped : Bool → String → Option String
stripped raw_empty String.[] = if raw_empty then some String.[] else none
stripped raw_empty (String.◌∷◌ c s) = some (strip_end (String.◌∷◌ c s))

-- `none` is a panic. Where nothing but punctuation is there, the start of the slice is the text's
-- length and its end twice that, which lies outside of a text that is not empty.
unfoldable pub strip_surrounding_punctuation : String → Option String
strip_surrounding_punctuation s = stripped (is_empty s) (strip_start s)

-- One match of the regular expression, a maximal run of characters that are no white space.
pub record Match : Type 0 where
  pub raw : String
  pub start : ℕ
  pub end : ℕ
  pub chars_before : ℕ

-- The character `c` at the byte `b` and the position `i`, before the matches of the rest.
unfoldable pub extend : Char → ℕ → ℕ → List Match → List Match
extend c b i [] =
    record { raw = String.◌∷◌ c String.[]; start = b; end = b + utf8_len c; chars_before = i } ∷ []
extend c b i (m ∷ ms) =
    if eqb m.chars_before (i + 1)
    then record m { raw = String.◌∷◌ c m.raw; start = b; chars_before = i } ∷ ms
    else record { raw = String.◌∷◌ c String.[]; start = b; end = b + utf8_len c; chars_before = i }
      ∷ (m ∷ ms)

module _ (is_whitespace : Char → Bool) where
  -- `find_iter`, from the byte `b` and the position `i` on.
  unfoldable pub find_iter : ℕ → ℕ → String → List Match
  find_iter b i String.[] = []
  find_iter b i (String.◌∷◌ c s) =
      let rest = find_iter (b + utf8_len c) (i + 1) s in
      if is_whitespace c then rest else extend c b i rest

abbrev pub push_token : Match → Option String → Option (List Token) → Option (List Token)
push_token m none rest = none
push_token m (some t) none = none
push_token m (some t) (some tokens) =
    if is_empty t
    then some tokens
    else some (
        record { token = t; start_byte = m.start; end_byte = m.end; start_char = m.chars_before }
        ∷ tokens)

unfoldable pub tokens_of : List Match → Option (List Token)
tokens_of [] = some []
tokens_of (m ∷ ms) = push_token m (strip_surrounding_punctuation m.raw) (tokens_of ms)

-- `none` is a panic.
unfoldable pub tokenize : (Char → Bool) → String → Option (List Token)
tokenize is_whitespace text = tokens_of (find_iter is_whitespace 0 0 text)

pub record TokenResult : Type 0 where
  pub token : String
  pub valid : Bool
  pub suggestions : List String

pub record PositionAccumulator : Type 0 where
  pub positions : List ℕ
  pub suggestions : List String

abbrev pub or_default : Option PositionAccumulator → PositionAccumulator
or_default none = record { positions = []; suggestions = [] }
or_default (some p) = p

abbrev pub or_empty : Option (List String) → List String
or_empty none = []
or_empty (some words) = words

-- The tokens of an absent text are none.
abbrev pub text_tokens : (Char → Bool) → Option String → Option (List Token)
text_tokens is_whitespace none = some []
text_tokens is_whitespace (some text) = tokenize is_whitespace text

module _ (check : String → Bool) (suggest : String → List String) where
  unfoldable pub token_result : String → TokenResult
  token_result token = record {
    token = token;
    valid = check token;
    suggestions = if check token then [] else suggest token;
  }

  abbrev pub results_for : List String → Option (List Token) → Option (List TokenResult)
  results_for words none = none
  results_for words (some tokens) = some (map token_result (map (λ t. t.token) tokens ++ words))

  -- The results of `POST /spellcheck`, once the engine is found.
  unfoldable pub spellcheck_results :
      (Char → Bool) → Option String → Option (List String) → Option (List TokenResult)
  spellcheck_results is_whitespace text words =
      results_for (or_empty words) (text_tokens is_whitespace text)

  -- Suggestions are computed where there are none yet.
  abbrev pub suggest_if_empty : String → List String → List String
  suggest_if_empty token [] = suggest token
  suggest_if_empty token (x ∷ xs) = x ∷ xs

  abbrev pub note : String → List ℕ → PositionAccumulator → PositionAccumulator
  note token at p = record {
    positions = p.positions ++ at;
    suggestions = suggest_if_empty token p.suggestions;
  }

  abbrev pub note_in :
      String → List ℕ → Dict String PositionAccumulator → Dict String PositionAccumulator
  note_in token at by_token =
      insert token (note token at (or_default (lookup token by_token))) by_token

  unfoldable pub note_tokens :
      List Token → Dict String PositionAccumulator → Dict String PositionAccumulator
  note_tokens [] by_token = by_token
  note_tokens (t ∷ ts) by_token =
      note_tokens ts
        (if check t.token then by_token else note_in t.token (t.start_char ∷ []) by_token)

  unfoldable pub note_words :
      List String → Dict String PositionAccumulator → Dict String PositionAccumulator
  note_words [] by_token = by_token
  note_words (w ∷ ws) by_token = note_words ws (if check w then by_token else note_in w [] by_token)

  abbrev pub positions_for :
      List String → Option (List Token) → Option (Dict String PositionAccumulator)
  positions_for words none = none
  positions_for words (some tokens) = some (note_words words (note_tokens tokens []))

  -- The results of `POST /spellcheck/positions`, in the order of a hash map.
  unfoldable pub spellcheck_positions_results :
      (Char → Bool)
      → Option String
      → Option (List String)
      → Option (Dict String PositionAccumulator)
  spellcheck_positions_results is_whitespace text words =
      positions_for (or_empty words) (text_tokens is_whitespace text)
