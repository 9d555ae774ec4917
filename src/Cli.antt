-- ===== src/Cli.antt =====
-- src/cli.rs: the command `reset-platform-key`. The terminal, its line and the file of secrets are
-- arguments; `json_of` stands for `serde_json`, which prints the object of the key.
pub mod Arguments
pub mod Run
use Prim.Native.Char.{code}
use rustspell_server.Base.{
  ℕ, ◌+◌, String, ◌<>◌, Bool, true, false, not, ◌&&◌, ◌||◌, Option, none, some, List, [], ◌∷◌, leb,
  eqb, if◌then◌else◌, ◌==◌, string_eq,
}
use rustspell_server.Base.Text.{trim}
use rustspell_server.Base.Anyhow.{Anyhow, value, bail, ◌>>=◌, ◌>>◌}
use rustspell_server.Store.Data.{CreatedApiKey, Db, Store, Env, Outcome, ok, err, panic}
use rustspell_server.Store.Keys.{reset_bootstrap_platform_key}
use rustspell_server.Store.Open.{DbConfig, open_for_cli}

pub data OutputFormat : Type 0 where
  human json quiet : OutputFormat

abbrev pub is_human : OutputFormat → Bool
is_human human = true
is_human _ = false

pub record Options : Type 0 where
  pub yes : Bool
  pub format : OutputFormat

abbrev pub default_options : Options
default_options = record { yes = false; format = human }

abbrev pub choose : OutputFormat → Options → Anyhow Options
choose format opts =
    if is_human opts.format
    then value (record opts { format = format })
    else bail "--json and --quiet are mutually exclusive"

unfoldable pub parse_arg : String → Options → Anyhow Options
parse_arg arg opts =
    if arg == "--yes"
    then value (record opts { yes = true })
    else if arg == "--json"
    then choose json opts
    else if arg == "--quiet"
    then choose quiet opts
    else bail ("unknown argument: " <> arg)

unfoldable pub parse_from : List String → Options → Anyhow Options
parse_from [] opts = value opts
parse_from (arg ∷ args) opts = do opts' ← parse_arg arg opts; parse_from args opts'

unfoldable pub parse_args : List String → Anyhow Options
parse_args args = parse_from args default_options

pub record Console : Type 0 where
  pub stdin_is_terminal : Bool
  pub stderr_is_terminal : Bool
  pub prompted : Bool
  pub line : Option String

unfoldable pub require_terminal : Console → Anyhow (Unit {0})
require_terminal c =
    if not c.stderr_is_terminal || not c.stdin_is_terminal
    then bail "not running in a terminal; use --yes to confirm the bootstrap platform key reset"
    else value tt

abbrev lower : ℕ → ℕ
lower c = if leb 65 c && leb c 90 then c + 32 else c

-- `to_ascii_lowercase() == expected`
unfoldable pub lowercase_is : String → String → Bool
lowercase_is String.[] String.[] = true
lowercase_is String.[] (String.◌∷◌ d t) = false
lowercase_is (String.◌∷◌ c s) String.[] = false
lowercase_is (String.◌∷◌ c s) (String.◌∷◌ d t) = eqb (lower (code c)) (code d) && lowercase_is s t

abbrev pub is_assent : String → Bool
is_assent trimmed = lowercase_is trimmed "y" || lowercase_is trimmed "yes"

abbrev pub answered : Option String → Anyhow (Unit {0})
answered none = bail "the answer could not be read"
answered (some line) =
    if is_assent (trim line) then value tt else bail "bootstrap platform key reset cancelled"

unfoldable pub confirm_interactive : Console → Anyhow (Unit {0})
confirm_interactive c =
    if c.prompted then answered c.line else bail "the question could not be written"

unfoldable pub confirm : Console → Options → Anyhow (Unit {0})
confirm c opts = if opts.yes then value tt else (do require_terminal c; confirm_interactive c)

module _ (json_of : String → String) where
  unfoldable pub print_output : OutputFormat → String → String
  print_output human raw_key =
      "New bootstrap platform API key (save this now, it will not be shown again):\n  " <> raw_key
  print_output json raw_key = json_of raw_key
  print_output quiet raw_key = raw_key

  -- What the command did: it printed the key of the store that it left, and then kept it in the file
  -- of secrets if one is named, or could not; or it failed, with the store that it had opened by then.
  pub data Ran : Type 0 where
    printed unsaved : String → CreatedApiKey → Store → Ran
    failed : String → Option Store → Ran

  -- `write_bootstrap_secrets`: `none` where the environment names no file, else whether it is written.
  abbrev pub write_secrets : Option Bool → String → CreatedApiKey → Store → Ran
  write_secrets (some false) out created s = unsaved out created s
  write_secrets _ out created s = printed out created s

  abbrev pub shown : Option Bool → OutputFormat → Outcome CreatedApiKey → Ran
  shown file format (ok created s) =
      write_secrets file (print_output format created.raw_key) created s
  shown file format (err e s) = failed e (some s)
  shown file format (panic e) = failed e none

  module _ (sha256 : String → List ℕ) (connect : String → ℕ → Option Db) where
    abbrev pub reset_opened : Env → Option Bool → OutputFormat → Option Store → Ran
    reset_opened env file format none = failed "the store could not be opened" none
    reset_opened env file format (some s) =
        shown file format (reset_bootstrap_platform_key sha256 env s)

    abbrev pub after_arguments : Env → Env → Option Bool → DbConfig → Anyhow Options → Ran
    after_arguments opening env file config (bail e) = failed e none
    after_arguments opening env file config (value opts) =
        reset_opened env file opts.format (open_for_cli connect opening config)

    -- The options, once they are confirmed.
    abbrev pub confirmed : Console → List String → Anyhow Options
    confirmed c args = do opts ← parse_args args; confirm c opts; value opts

    unfoldable pub run : Env → Env → Option Bool → Console → Anyhow DbConfig → List String → Ran
    run opening env file c (bail e) args = failed e none
    run opening env file c (value config) args =
        after_arguments opening env file config (confirmed c args)
