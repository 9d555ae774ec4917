-- ===== src/Engine/Positions.antt =====
-- src/handlers.rs: what `POST /spellcheck/positions` reports for a word, by the runs of the text.
use Prim.Native.Char.{Char}
use rustspell_server.Base.{
  ℕ, String, ◌≡◌, refl, sym, ap, subst, ◌∙◌, Bool, true, false, not, ◌&&◌, Option, none, some, List,
  [], ◌∷◌, ◌++◌, All, if◌then◌else◌, Bool-cases, ◌⊎◌, inl, inr, ◌==◌, string_eq,
}
use mathlib.Core.List.{append-nil, append_assoc}
use mathlib.Core.Option.{some-injective}
use rustspell_server.Base.Text.{is_empty}
use rustspell_server.Base.Dict.{Dict, lookup, lookup-insert}
use rustspell_server.Engine.{
  Token, strip_surrounding_punctuation, Match, find_iter, push_token, tokens_of, tokenize,
  PositionAccumulator, or_default, note, note_in, note_tokens, note_words, text_tokens, or_empty,
  positions_for, spellcheck_positions_results,
}
use rustspell_server.Engine.Runs.{RunStands, find_iter-RunStands}

-- The runs of a text, and none of an absent one.
abbrev pub runs_of : (Char → Bool) → Option String → List Match
runs_of is_whitespace none = []
runs_of is_whitespace (some text) = find_iter is_whitespace 0 0 text

abbrev pub RunsStand : (Char → Bool) → Option String → Type 0
RunsStand is_whitespace none = Unit
RunsStand is_whitespace (some text) = All (RunStands text) (find_iter is_whitespace 0 0 text)

abbrev pub names : String → Option String → Bool
names w none = false
names w (some token) = not (is_empty token) && token == w

-- Where the runs begin whose token, without the punctuation around it, is the word.
abbrev pub run_starts : String → List Match → List ℕ
run_starts w [] = []
run_starts w (m ∷ ms) =
    if names w (strip_surrounding_punctuation m.raw)
    then m.chars_before ∷ run_starts w ms
    else run_starts w ms

-- The positions of a word among tokens, in order.
abbrev pub starts_of : String → List Token → List ℕ
starts_of w [] = []
starts_of w (t ∷ ts) = if t.token == w then t.start_char ∷ starts_of w ts else starts_of w ts

push_token-starts :
    (w : String) (m : Match) (ms : List Match) (o : Option String) (rest : Option (List Token))
    (tokens : List Token)
    → strip_surrounding_punctuation m.raw ≡ o
    → ((ts : List Token) → rest ≡ some ts → starts_of w ts ≡ run_starts w ms)
    → push_token m o rest ≡ some tokens
    → starts_of w tokens ≡ run_starts w (m ∷ ms)
push_token-starts w m ms none rest tokens s ih e = absurd (cc)
push_token-starts w m ms (some t) none tokens s ih e = absurd (cc)
push_token-starts w m ms (some t) (some ts) tokens s ih e = elim (Bool-cases (is_empty t)) [
  | inl blank ↦
      rw (s, blank) (ap (starts_of w) (sym (some-injective _ _ (rw blank at e))) ∙ ih ts refl)
  | inr full ↦
      rw (s, full)
        (ap (starts_of w) (sym (some-injective _ _ (rw full at e)))
          ∙ ap (λ l. if t == w then m.chars_before ∷ l else l) (ih ts refl))
]

starts_of-run_starts :
    (w : String) (ms : List Match) (tokens : List Token)
    → tokens_of ms ≡ some tokens
    → starts_of w tokens ≡ run_starts w ms
unfolding tokens_of
starts_of-run_starts w [] tokens e = ap (starts_of w) (sym (some-injective _ _ e))
starts_of-run_starts w (m ∷ ms) tokens e =
    push_token-starts w m ms (strip_surrounding_punctuation m.raw) (tokens_of ms) tokens refl
      (starts_of-run_starts w ms) e

module _ (check : String → Bool) (suggest : String → List String) where
  abbrev pub positions_at : String → Dict String PositionAccumulator → List ℕ
  positions_at w by_token = (or_default (lookup w by_token)).positions

  -- What a word's entry is after one note.
  lookup-note_in :
      (w token : String) (at : List ℕ) (by_token : Dict String PositionAccumulator)
      → lookup w (note_in check suggest token at by_token) ≡ (
          if token == w
          then some (note check suggest token at (or_default (lookup token by_token)))
          else lookup w by_token)
  lookup-note_in w token at by_token = lookup-insert token w _ by_token

  -- The whole of one word's entry: none where the word is correct.
  abbrev Entry : String → List ℕ → Option PositionAccumulator → Type 0
  Entry w starts o =
      (check w ≡ true → o ≡ none) × (check w ≡ false → (or_default o).positions ≡ starts)

  one-Entry :
      (w x : String) (at : List ℕ) (by_token : Dict String PositionAccumulator) (seen : List ℕ)
      → Entry w seen (lookup w by_token)
      → Entry w
          (if x == w then seen ++ at else seen)
          (lookup w (if check x then by_token else note_in check suggest x at by_token))
  one-Entry w x at by_token seen (good, bad) = elim (Bool-cases (x == w)) [
    | inl same ↦
        let is = (string_eq.test_iff x w).0 same in
        elim (Bool-cases (check x)) [
          | inl right ↦ rw right (good, λ e. absurd (cc (is, right, e)))
          | inr wrong ↦
              rw (wrong, lookup-note_in w x at by_token, same)
                (
                  λ e. absurd (cc (is, wrong, e)),
                  λ e.
                      ap (λ v. (or_default (lookup v by_token)).positions ++ at) is
                      ∙ ap (λ p. p ++ at) (bad e),
                )
        ]
    | inr other ↦ elim (Bool-cases (check x)) [
      | inl right ↦ rw (right, other) (good, bad)
      | inr wrong ↦ rw (wrong, lookup-note_in w x at by_token, other) (good, bad)
    ]
  ]

  seen_then :
      (w : String) (t : Token) (ts : List Token) (seen : List ℕ)
      → (if t.token == w then seen ++ (t.start_char ∷ []) else seen) ++ starts_of w ts
        ≡ seen ++ starts_of w (t ∷ ts)
  seen_then w t ts seen = elim (Bool-cases (t.token == w)) [
    | inl same ↦ rw same (append_assoc seen (t.start_char ∷ []) (starts_of w ts))
    | inr other ↦ rw other refl
  ]

  note_tokens-Entry :
      (w : String) (ts : List Token) (by_token : Dict String PositionAccumulator) (seen : List ℕ)
      → Entry w seen (lookup w by_token)
      → Entry w (seen ++ starts_of w ts) (lookup w (note_tokens check suggest ts by_token))
  unfolding note_tokens
  note_tokens-Entry w [] by_token seen (good, bad) = (good, λ e. bad e ∙ sym (append-nil seen))
  note_tokens-Entry w (t ∷ ts) by_token seen h =
      let next =
        if check t.token
        then by_token
        else note_in check suggest t.token (t.start_char ∷ []) by_token in
      subst (λ l. Entry w l (lookup w (note_tokens check suggest ts next))) (seen_then w t ts seen)
        (note_tokens-Entry w ts next _ (one-Entry w t.token (t.start_char ∷ []) by_token seen h))

  same_seen : (b : Bool) (seen : List ℕ) → (if b then seen ++ [] else seen) ≡ seen
  same_seen true seen = append-nil seen
  same_seen false seen = refl

  note_words-Entry :
      (w : String) (ws : List String) (by_token : Dict String PositionAccumulator) (seen : List ℕ)
      → Entry w seen (lookup w by_token)
      → Entry w seen (lookup w (note_words check suggest ws by_token))
  unfolding note_words
  note_words-Entry w [] by_token seen h = h
  note_words-Entry w (v ∷ ws) by_token seen h =
      let next = if check v then by_token else note_in check suggest v [] by_token in
      note_words-Entry w ws next seen (
        subst (λ l. Entry w l (lookup w next)) (same_seen (v == w) seen)
          (one-Entry w v [] by_token seen h))

  -- A correct word has no entry, and any other one with these positions.
  abbrev pub Entered : String → List ℕ → Option PositionAccumulator → Type 0
  Entered w starts o =
      ((check w ≡ true) × (o ≡ none)) ⊎ ((check w ≡ false) × ((or_default o).positions ≡ starts))

  Entry-Entered :
      (w : String) (starts : List ℕ) (o : Option PositionAccumulator)
      → Entry w starts o
      → Entered w starts o
  Entry-Entered w starts o (good, bad) = elim (Bool-cases (check w)) [
    | inl right ↦ inl (right, good right)
    | inr wrong ↦ inr (wrong, bad wrong)
  ]

  abbrev pub Reports :
      List Match → Option (List Token) → Option (Dict String PositionAccumulator) → Type 0
  Reports runs none none = Unit
  Reports runs (some tokens) (some by_token) =
      (w : String) → Entered w (run_starts w runs) (lookup w by_token)
  Reports runs _ _ = ⊥

  reported :
      (words : List String) (ms : List Match) (o : Option (List Token))
      → tokens_of ms ≡ o
      → Reports ms o (positions_for check suggest words o)
  unfolding lookup
  reported words ms none e = tt
  reported words ms (some tokens) e = λ w.
      subst
        (λ starts.
          Entered w starts
            (lookup w (note_words check suggest words (note_tokens check suggest tokens []))))
        (starts_of-run_starts w ms tokens e)
        (Entry-Entered w (starts_of w tokens) _ (
          note_words-Entry w words _ (starts_of w tokens)
            (note_tokens-Entry w tokens [] [] (λ e. refl, λ e. refl))))

  -- Each run of characters that are no white space stands in the text where `find_iter` says, and
  -- its token, if it has one, stands after the punctuation that the run begins with. Where the
  -- tokenizer panics so does the handler. Else the report has no entry for a word that the
  -- dictionary knows, and for any other the positions are, in order, exactly those at which the runs
  -- begin whose token is that word: those of the run and not of the token, which is further on by
  -- the punctuation before it. The words of the list add none.
  pub spellcheck_positions_results-Reports :
      (is_whitespace : Char → Bool) (text : Option String) (words : Option (List String))
      → RunsStand is_whitespace text
        × Reports
            (runs_of is_whitespace text)
            (text_tokens is_whitespace text)
            (spellcheck_positions_results check suggest is_whitespace text words)
  unfolding spellcheck_positions_results tokenize tokens_of
  spellcheck_positions_results-Reports is_whitespace none words =
      (tt, reported (or_empty words) [] (some []) refl)
  spellcheck_positions_results-Reports is_whitespace (some text) words = (
    find_iter-RunStands is_whitespace text,
    reported (or_empty words) (find_iter is_whitespace 0 0 text) _ refl,
  )
