-- ===== src/Engine/Runs.antt =====
-- src/engine.rs: where the runs of `find_iter` lie in the text, and where their tokens stand in them.
use Prim.Native.Char.{Char}
use rustspell_server.Base.{
  ℕ, zero, suc, ◌+◌, ◌≤◌, ◌-◌, String, ◌≡◌, refl, sym, ap, subst, ◌∙◌, Bool, true, false, Option,
  none, some, List, [], ◌∷◌, All, eqb, eqb_iff, arith, if◌then◌else◌, Bool-cases, inl, inr,
}
use mathlib.Core.Option.{some-injective}
use rustspell_server.Base.Text.{starts_with, starts_with_trans, is_empty}
use rustspell_server.Models.{utf8_len}
use rustspell_server.Engine.{
  is_punctuation, strip_start, cons_stripped, strip_end, stripped, strip_surrounding_punctuation,
  Match, extend, find_iter,
}

-- The text from its `n`-th character on.
abbrev pub skip : ℕ → String → String
skip zero s = s
skip (suc n) String.[] = String.[]
skip (suc n) (String.◌∷◌ c s) = skip n s

-- A match of the text `s` that begins at the position `i` of the whole: its characters stand there.
abbrev pub Located : ℕ → String → Match → Type 0
Located i s m = (i ≤ m.chars_before) × (starts_with m.raw (skip (m.chars_before - i) s) ≡ true)

later :
    (i : ℕ) (c : Char) (s : String) (m : Match) → Located (i + 1) s m → Located i (String.◌∷◌ c s) m
later i c s m (lo, here) =
    let e : m.chars_before - i ≡ suc (m.chars_before - (i + 1)) = omega (arith, lo) in
    (
      omega (arith, lo),
      subst (λ n. starts_with m.raw (skip n (String.◌∷◌ c s)) ≡ true) (sym e) here,
    )

here :
    (i : ℕ) (c : Char) (raw s : String)
    → starts_with raw s ≡ true
    → starts_with (String.◌∷◌ c raw) (skip (i - i) (String.◌∷◌ c s)) ≡ true
here i c raw s h =
    let e : i - i ≡ 0 = omega arith in
    subst (λ n. starts_with (String.◌∷◌ c raw) (skip n (String.◌∷◌ c s)) ≡ true) (sym e)
      (ground arith)

later-All :
    (i : ℕ) (c : Char) (s : String) (ms : List Match)
    → All (Located (i + 1) s) ms
    → All (Located i (String.◌∷◌ c s)) ms
later-All i c s [] h = tt
later-All i c s (m ∷ ms) h = (later i c s m h.0, later-All i c s ms h.1)

extend-Located :
    (c : Char) (b i : ℕ) (s : String) (ms : List Match)
    → All (Located (i + 1) s) ms
    → All (Located i (String.◌∷◌ c s)) (extend c b i ms)
unfolding extend
extend-Located c b i s [] h = ((omega arith, here i c String.[] s refl), tt)
extend-Located c b i s (m ∷ ms) h = elim (Bool-cases (eqb m.chars_before (i + 1))) [
  | inl joins ↦
      let e : m.chars_before - (i + 1) ≡ 0 =
        omega (arith, (eqb_iff m.chars_before (i + 1)).0 joins) in
      let there = subst (λ n. starts_with m.raw (skip n s) ≡ true) e h.0.1 in
      rw joins ((omega arith, here i c m.raw s there), later-All i c s ms h.1)
  | inr apart ↦
      rw apart
        ((omega arith, here i c String.[] s refl), (later i c s m h.0, later-All i c s ms h.1))
]

-- Every match in a text consists of the characters that stand in the text at the position that the
-- match reports.
pub find_iter-Located :
    (is_whitespace : Char → Bool) (b i : ℕ) (s : String)
    → All (Located i s) (find_iter is_whitespace b i s)
unfolding find_iter
find_iter-Located is_whitespace b i String.[] = tt
find_iter-Located is_whitespace b i (String.◌∷◌ c s) =
    let rest = find_iter-Located is_whitespace (b + utf8_len c) (i + 1) s in
    elim (Bool-cases (is_whitespace c)) [
      | inl space ↦ rw space (later-All i c s _ rest)
      | inr other ↦ rw other (extend-Located c b i s _ rest)
    ]

-- How many characters of punctuation a run begins with.
abbrev pub leading : String → ℕ
leading String.[] = zero
leading (String.◌∷◌ c s) = if is_punctuation c then suc (leading s) else zero

strip_start-skip : (s : String) → strip_start s ≡ skip (leading s) s
unfolding strip_start
strip_start-skip String.[] = refl
strip_start-skip (String.◌∷◌ c s) = elim (Bool-cases (is_punctuation c)) [
  | inl mark ↦ rw mark (strip_start-skip s)
  | inr letter ↦ rw letter refl
]

cons_stripped-starts_with :
    (c : Char) (t s : String)
    → starts_with t s ≡ true
    → starts_with (cons_stripped c t) (String.◌∷◌ c s) ≡ true
cons_stripped-starts_with c String.[] s h = elim (Bool-cases (is_punctuation c)) [
  | inl mark ↦ rw mark refl
  | inr letter ↦ rw letter (ground arith)
]
cons_stripped-starts_with c (String.◌∷◌ d t) s h = ground arith

strip_end-starts_with : (s : String) → starts_with (strip_end s) s ≡ true
unfolding strip_end
strip_end-starts_with String.[] = refl
strip_end-starts_with (String.◌∷◌ c s) =
    cons_stripped-starts_with c (strip_end s) s (strip_end-starts_with s)

skip-empty : (n : ℕ) → skip n String.[] ≡ String.[]
skip-empty zero = refl
skip-empty (suc n) = refl

skip-skip : (p l : ℕ) (s : String) → skip l (skip p s) ≡ skip (p + l) s
skip-skip zero l s = ap (λ n. skip n s) (omega arith)
skip-skip (suc p) l String.[] = skip-empty l ∙ sym (skip-empty (suc p + l))
skip-skip (suc p) l (String.◌∷◌ c s) =
    let e : suc p + l ≡ suc (p + l) = omega arith in
    skip-skip p l s ∙ sym (ap (λ n. skip n (String.◌∷◌ c s)) e)

skip-starts_with :
    (n : ℕ) (r s : String) → starts_with r s ≡ true → starts_with (skip n r) (skip n s) ≡ true
skip-starts_with zero r s h = h
skip-starts_with (suc n) String.[] s h = refl
skip-starts_with (suc n) (String.◌∷◌ c r) String.[] h = absurd (cc)
skip-starts_with (suc n) (String.◌∷◌ c r) (String.◌∷◌ d s) h = skip-starts_with n r s (ground arith)

stripped-starts_with : (b : Bool) (s t : String) → stripped b s ≡ some t → starts_with t s ≡ true
stripped-starts_with true String.[] t e =
    subst (λ u. starts_with u String.[] ≡ true) (some-injective _ _ e) refl
stripped-starts_with false String.[] t e = absurd (cc)
stripped-starts_with b (String.◌∷◌ c s) t e =
    subst (λ u. starts_with u (String.◌∷◌ c s) ≡ true) (some-injective _ _ e)
      (strip_end-starts_with (String.◌∷◌ c s))

-- The run stands in the text at the position that is reported, and its token, if it has one, after
-- the punctuation that the run begins with.
abbrev pub Stands : String → Match → Option String → Type 0
Stands text m none = starts_with m.raw (skip m.chars_before text) ≡ true
Stands text m (some token) =
    (starts_with m.raw (skip m.chars_before text) ≡ true)
    × (starts_with token (skip (m.chars_before + leading m.raw) text) ≡ true)

abbrev pub RunStands : String → Match → Type 0
RunStands text m = Stands text m (strip_surrounding_punctuation m.raw)

Located-RunStands : (text : String) (m : Match) → Located 0 text m → RunStands text m
unfolding strip_surrounding_punctuation
Located-RunStands text m (lo, there) = go (strip_surrounding_punctuation m.raw) refl
  where
    run : starts_with m.raw (skip m.chars_before text) ≡ true
    run =
        let e : m.chars_before - 0 ≡ m.chars_before = omega arith in
        subst (λ n. starts_with m.raw (skip n text) ≡ true) e there

    go : (o : Option String) → strip_surrounding_punctuation m.raw ≡ o → Stands text m o
    go none e = run
    go (some token) e = (
      run,
      subst (λ s. starts_with token s ≡ true) (skip-skip m.chars_before (leading m.raw) text)
          (starts_with_trans token (skip (leading m.raw) m.raw) _
            (subst (λ s. starts_with token s ≡ true) (strip_start-skip m.raw)
              (stripped-starts_with (is_empty m.raw) (strip_start m.raw) token e))
            (skip-starts_with (leading m.raw) m.raw _ run)),
    )

pub find_iter-RunStands :
    (is_whitespace : Char → Bool) (text : String)
    → All (RunStands text) (find_iter is_whitespace 0 0 text)
find_iter-RunStands is_whitespace text = located _ (find_iter-Located is_whitespace 0 0 text)
  where
    located : (ms : List Match) → All (Located 0 text) ms → All (RunStands text) ms
    located [] h = tt
    located (m ∷ ms) h = (Located-RunStands text m h.0, located ms h.1)
