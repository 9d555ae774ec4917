-- ===== src/Cli/Run.antt =====
-- src/cli.rs: the command resets the key only once it is confirmed, and prints the key that counts.
use mathlib.Core.Option.{some-injective}
use rustspell_server.Base.{
  Bool, false, ℕ, ◌^◌, ◌<◌, String, ◌≡◌, refl, ap, subst, ◌∙◌, ◌⊎◌, inl, inr, true, Bool-cases,
  Option, none, some, List, arith,
}
use rustspell_server.Base.Text.{trim}
use rustspell_server.Base.Anyhow.{Anyhow, value, bail, accepted, bind-eq-value}
use rustspell_server.Store.Data.{platform, CreatedApiKey, Db, Store, Env, Outcome, ok, err, panic}
use rustspell_server.Store.After.{After}
use rustspell_server.Store.Keys.{reset_bootstrap_platform_key, authenticate}
use rustspell_server.Store.Keys.Invariant.{Inv}
use rustspell_server.Store.Keys.Bootstrap.{reset_bootstrap_platform_key-Inv}
use rustspell_server.Store.Keys.Reset.{reset_bootstrap_platform_key-IsReset}
use rustspell_server.Store.Open.{
  DbConfig, database_url, max_connections, open_internal, open_for_cli,
}
use rustspell_server.Store.Open.Bootstrapped.{IsSound, load_from-Inv}
use rustspell_server.Cli.{
  Options, parse_args, Console, require_terminal, is_assent, answered, confirm_interactive, confirm,
  print_output, Ran, printed, unsaved, failed, write_secrets, shown, reset_opened, after_arguments,
  confirmed, run,
}

abbrev Assents : Option String → Type 0
Assents none = ⊥
Assents (some line) = is_assent (trim line) ≡ true

-- Someone at a terminal was asked and said yes.
pub record IsAsked (c : Console) : Type 0 where
  pub at_input : c.stdin_is_terminal ≡ true
  pub at_error : c.stderr_is_terminal ≡ true
  pub was_asked : c.prompted ≡ true
  pub assents : Assents c.line

answered-Assents : (line : Option String) → answered line ≡ value tt → Assents line
answered-Assents none e = absurd (cc)
answered-Assents (some line) e = ground arith

confirm-IsAsked :
    (c : Console) (opts : Options) → confirm c opts ≡ value tt → (opts.yes ≡ true) ⊎ IsAsked c
unfolding confirm confirm_interactive require_terminal
confirm-IsAsked c opts e = elim (Bool-cases opts.yes) [
  | inl said ↦ inl said
  | inr unsaid ↦ inr (record {
    at_input = ground arith;
    at_error = ground arith;
    was_asked = ground arith;
    assents = answered-Assents c.line (ground arith);
  })
]

module _ (json_of : String → String) (sha256 : String → List ℕ) where
  -- A run that printed: it was confirmed, and what it printed is the key that the store now takes.
  pub record HasRun (env : Env) (c : Console) (args : List String) (out : String)
      (created : CreatedApiKey) (t : Store) : Type 0 where
    pub opts : Options
    pub asked : parse_args args ≡ value opts
    pub consent : (opts.yes ≡ true) ⊎ IsAsked c
    pub output : out ≡ print_output json_of opts.format created.raw_key
    pub role_is : created.key_record.role ≡ platform
    pub agrees : Inv t
    pub taken : authenticate sha256 env created.raw_key t ≡ (some created.key_record, t)

  abbrev RunResult : Env → Console → List String → Ran json_of → Type 0
  RunResult env c args (printed out created t) = HasRun env c args out created t
  RunResult env c args (unsaved out created t) = HasRun env c args out created t
  RunResult env c args (failed e s) = Unit

  kept-RunResult :
      (env : Env) (c : Console) (args : List String) (file : Option Bool) (out : String)
      (created : CreatedApiKey) (t : Store)
      → HasRun env c args out created t
      → RunResult env c args (write_secrets json_of file out created t)
  kept-RunResult env c args none out created t h = h
  kept-RunResult env c args (some true) out created t h = h
  kept-RunResult env c args (some false) out created t h = h

  shown-RunResult :
      (env : Env) (file : Option Bool) (c : Console) (args : List String) (opts : Options)
      (s : Store) (o : Outcome CreatedApiKey)
      → env.now < 2 ^ 63
      → parse_args args ≡ value opts
      → confirm c opts ≡ value tt
      → Inv s
      → reset_bootstrap_platform_key sha256 env s ≡ o
      → RunResult env c args (shown json_of file opts.format o)
  shown-RunResult env file c args opts s (ok created t) fits asked sure v e =
      let r = reset_bootstrap_platform_key-IsReset sha256 env s t created v e in
      kept-RunResult env c args file _ created t (record {
        opts = opts;
        asked = asked;
        consent = confirm-IsAsked c opts sure;
        output = refl;
        role_is = r.is_platform;
        agrees = subst (After Inv) e (reset_bootstrap_platform_key-Inv sha256 env s fits v);
        taken = r.accepted env r.is_live;
      })
  shown-RunResult env file c args opts s (err m t) fits asked sure v e = tt
  shown-RunResult env file c args opts s (panic m) fits asked sure v e = tt

  module _ (connect : String → ℕ → Option Db) where
    -- The database that a configuration leads to.
    abbrev pub connected : DbConfig → Option Db
    connected config = connect (database_url config) (max_connections (database_url config))

    opened-RunResult :
        (env : Env) (file : Option Bool) (c : Console) (args : List String) (opts : Options)
        (o : Option Store)
        → env.now < 2 ^ 63
        → parse_args args ≡ value opts
        → confirm c opts ≡ value tt
        → ((s : Store) → o ≡ some s → Inv s)
        → RunResult env c args (reset_opened json_of sha256 connect env file opts.format o)
    opened-RunResult env file c args opts none fits asked sure v = tt
    opened-RunResult env file c args opts (some s) fits asked sure v =
        shown-RunResult env file c args opts s _ fits asked sure (v s refl) refl

    arguments-RunResult :
        (opening env : Env) (file : Option Bool) (c : Console) (config : DbConfig)
        (args : List String) (o : Anyhow Options)
        → env.now < 2 ^ 63
        → IsSound (connected config)
        → confirmed json_of sha256 connect c args ≡ o
        → RunResult env c args (after_arguments json_of sha256 connect opening env file config o)
    unfolding open_for_cli open_internal
    arguments-RunResult opening env file c config args (bail m) fits w e = tt
    arguments-RunResult opening env file c config args (value opts) fits w e =
        let (opts', asked, later) = bind-eq-value (parse_args args) _ opts e in
        let (u, sure, same) = bind-eq-value (confirm c opts') _ opts later in
        opened-RunResult env file c args opts _ fits (asked ∙ same)
          (subst (λ o. confirm c o ≡ value tt) (some-injective _ _ (ap accepted same)) sure)
          (λ s p. load_from-Inv opening (connected config) s w p)

    -- Where the configuration leads to a database with unique ids and hashes of keys and no negative
    -- time of revocation, and the time fits the columns: a run that prints a key, whether or
    -- not it then fails to write that key to the file of secrets, was confirmed, by
    -- `--yes` or by someone who was asked at a terminal and answered yes; it printed, in the format
    -- that the arguments chose, the raw value of a platform key; and the store that it leaves
    -- accepts that value at the time of the run and has a cache of keys that agrees with the table.
    pub run-HasRun :
        (opening env : Env) (file : Option Bool) (c : Console) (config : DbConfig)
        (args : List String) (out : String) (created : CreatedApiKey) (t : Store)
        → env.now < 2 ^ 63
        → IsSound (connected config)
        → (let done = run json_of sha256 connect opening env file c (value config) args in
            (done ≡ printed out created t) ⊎ (done ≡ unsaved out created t))
        → HasRun env c args out created t
    unfolding run
    run-HasRun opening env file c config args out created t fits w (inl e) =
        subst (RunResult env c args) e
          (arguments-RunResult opening env file c config args _ fits w refl)
    run-HasRun opening env file c config args out created t fits w (inr e) =
        subst (RunResult env c args) e
          (arguments-RunResult opening env file c config args _ fits w refl)
