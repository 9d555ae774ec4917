-- ===== src/Cli/Arguments.antt =====
-- src/cli.rs: which arguments the command takes, and what they ask for.
use rustspell_server.Base.{
  ℕ, ◌+◌, String, ◌≡◌, refl, sym, subst, ◌∙◌, ◌⊎◌, inl, inr, Bool, true, false, ◌&&◌, ◌||◌, Option,
  none, some, List, [], ◌∷◌, arith, any, leb, if◌then◌else◌, Bool-cases, ◌==◌, string_eq,
}
use rustspell_server.Base.Anyhow.{accepted}
use rustspell_server.Cli.{
  OutputFormat, human, json, quiet, is_human, Options, default_options, parse_arg, parse_from,
  parse_args,
}

abbrev is_format : String → Bool
is_format arg = arg == "--json" || arg == "--quiet"

abbrev pub all_known : List String → Bool
all_known [] = true
all_known (arg ∷ args) = (arg == "--yes" || is_format arg) && all_known args

-- How many arguments choose a format, repetitions included.
abbrev pub choices : List String → ℕ
choices [] = 0
choices (arg ∷ args) = if is_format arg then choices args + 1 else choices args

abbrev pub chosen : List String → OutputFormat → OutputFormat
chosen [] format = format
chosen (arg ∷ args) format =
    if arg == "--json" then json else if arg == "--quiet" then quiet else chosen args format

abbrev pub wanted : List String → Options → Options
wanted args opts = record {
  yes = opts.yes || any (λ arg. arg == "--yes") args;
  format = chosen args opts.format;
}

abbrev already : OutputFormat → ℕ
already format = if is_human format then 0 else 1

chosen-none :
    (args : List String) (format : OutputFormat) → choices args ≡ 0 → chosen args format ≡ format
chosen-none [] format h = refl
chosen-none (arg ∷ args) format h = ground (arith, chosen-none args format)

-- What the arguments ask for, as one test of the whole list.
abbrev reference : List String → Options → Option Options
reference args opts =
    if all_known args && leb (choices args + already opts.format) 1
    then some (wanted args opts)
    else none

abbrev Meets : List String → Type 0
Meets args = (opts : Options) → accepted (parse_from args opts) ≡ reference args opts

nil-Meets :
    (format : OutputFormat) (said : Bool)
    → (let opts : Options = record { yes = said; format = format } in
        accepted (parse_from [] opts) ≡ reference [] opts)
unfolding parse_from
nil-Meets human said = ground arith
nil-Meets json said = ground arith
nil-Meets quiet said = ground arith

yes-Meets : (args : List String) → Meets args → Meets ("--yes" ∷ args)
unfolding parse_from parse_arg
yes-Meets args m opts = ground (arith, m (record opts { yes = true }))

json-Meets : (args : List String) → Meets args → Meets ("--json" ∷ args)
unfolding parse_from parse_arg
json-Meets args m opts = ground (arith, m (record opts { format = json }), chosen-none args json)

quiet-Meets : (args : List String) → Meets args → Meets ("--quiet" ∷ args)
unfolding parse_from parse_arg
quiet-Meets args m opts = ground (arith, m (record opts { format = quiet }), chosen-none args quiet)

other-Meets :
    (arg : String) (args : List String)
    → (arg == "--yes") ≡ false
    → (arg == "--json") ≡ false
    → (arg == "--quiet") ≡ false
    → Meets (arg ∷ args)
unfolding parse_from parse_arg
other-Meets arg args y j q opts = rw (y, j, q) refl

parse_from-Meets : (args : List String) → Meets args
parse_from-Meets [] = λ opts. nil-Meets opts.format opts.yes
parse_from-Meets (arg ∷ args) =
    cons (parse_from-Meets args) (Bool-cases (arg == "--yes")) (Bool-cases (arg == "--json"))
      (Bool-cases (arg == "--quiet"))
  where
    Test : String → Type 0
    Test flag = ((arg == flag) ≡ true) ⊎ ((arg == flag) ≡ false)

    named : (flag : String) → (arg == flag) ≡ true → Meets (flag ∷ args) → Meets (arg ∷ args)
    named flag hit m = subst (λ a. Meets (a ∷ args)) (sym ((string_eq.test_iff arg flag).0 hit)) m

    cons : Meets args → Test "--yes" → Test "--json" → Test "--quiet" → Meets (arg ∷ args)
    cons m (inl y) j q = named "--yes" y (yes-Meets args m)
    cons m (inr y) (inl j) q = named "--json" j (json-Meets args m)
    cons m (inr y) (inr j) (inl q) = named "--quiet" q (quiet-Meets args m)
    cons m (inr y) (inr j) (inr q) = other-Meets arg args y j q

-- The arguments are accepted exactly where each is one of the three known ones and at most one of
-- them chooses a format. The options that they give then say yes where `--yes` is among them, in any
-- place, and have the format that was chosen, or the human one.
pub parse_args-wanted :
    (args : List String)
    → accepted (parse_args args) ≡ (
        if all_known args && leb (choices args) 1 then some (wanted args default_options) else none)
unfolding parse_args
parse_args-wanted args = parse_from-Meets args default_options ∙ ground arith
