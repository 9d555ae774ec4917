-- ===== src/Engine/Panics.antt =====
-- src/engine.rs: the texts on which the tokenizer panics.
use Prim.Native.Char.{Char}
use rustspell_server.Base.{
  String, ◌≡◌, refl, ◌∙◌, Bool, true, false, not, ◌&&◌, ◌||◌, Option, none, some, List, [], ◌∷◌,
  any, Bool-cases, inl, inr, is_none,
}
use rustspell_server.Base.Text.{is_empty}
use rustspell_server.Models.{all_chars}
use rustspell_server.Engine.{
  Token, is_punctuation, strip_start, strip_surrounding_punctuation, stripped, Match, find_iter,
  push_token, tokens_of, tokenize,
}

strip_start-empty : (s : String) → is_empty (strip_start s) ≡ all_chars is_punctuation s
unfolding strip_start all_chars
strip_start-empty String.[] = refl
strip_start-empty (String.◌∷◌ c s) = elim (Bool-cases (is_punctuation c)) [
  | inl mark ↦ rw mark (strip_start-empty s)
  | inr letter ↦ rw letter refl
]

stripped-none : (b : Bool) (s : String) → is_none (stripped b s) ≡ (not b && is_empty s)
stripped-none true String.[] = refl
stripped-none false String.[] = refl
stripped-none true (String.◌∷◌ c s) = refl
stripped-none false (String.◌∷◌ c s) = refl

-- A match that is punctuation only.
abbrev pub is_all_punctuation : Match → Bool
is_all_punctuation m = not (is_empty m.raw) && all_chars is_punctuation m.raw

push_token-none :
    (m : Match) (o : Option String) (rest : Option (List Token))
    → is_none (push_token m o rest) ≡ (is_none o || is_none rest)
push_token-none m none rest = refl
push_token-none m (some t) none = refl
push_token-none m (some t) (some tokens) = elim (Bool-cases (is_empty t)) [
  | inl empty ↦ rw empty refl
  | inr full ↦ rw full refl
]

tokens_of-none : (ms : List Match) → is_none (tokens_of ms) ≡ any is_all_punctuation ms
unfolding tokens_of strip_surrounding_punctuation
tokens_of-none [] = refl
tokens_of-none (m ∷ ms) =
    push_token-none m (strip_surrounding_punctuation m.raw) (tokens_of ms)
    ∙ cc (
      stripped-none (is_empty m.raw) (strip_start m.raw),
      strip_start-empty m.raw,
      tokens_of-none ms,
    )

-- The tokenizer panics exactly where the text has a run of characters without white space that is
-- made of punctuation only, as in `...`.
pub tokenize_panics :
    (is_whitespace : Char → Bool) (text : String)
    → is_none (tokenize is_whitespace text)
      ≡ any is_all_punctuation (find_iter is_whitespace 0 0 text)
unfolding tokenize
tokenize_panics is_whitespace text = tokens_of-none (find_iter is_whitespace 0 0 text)
