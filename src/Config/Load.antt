-- ===== src/Config/Load.antt =====
-- src/config.rs: the configuration as the environment gives it. `directories` names the two default
-- paths, which are parameters, as is the parser of one address.
pub mod Accepted
use rustspell_server.Base.{
  ℕ, String, ◌<>◌, Bool, true, false, not, ◌||◌, Option, none, some, List, [], ◌∷◌, map, eqb,
  if◌then◌else◌, retain,
}
use rustspell_server.Base.Text.{split, trim, is_empty, starts_with, parse_uint}
use rustspell_server.Base.Anyhow.{Anyhow, value, bail, ◌>>=◌, ◌>>◌}
use rustspell_server.Config.Cidr.{IpAddr, Cidr, parse}

-- What `std::env::var` finds: a text, no variable, or one that is no Unicode, here by its path.
pub data Var : Type 0 where
  present : String → Var
  not_present : Var
  not_unicode : String → Var

abbrev pub Vars : Type 0
Vars = String → Var

-- `env::var(name).unwrap_or_else(…)`
abbrev pub text_or : Var → String → String
text_or (present text) default = text
text_or _ default = default

-- `env::var_os(name).map(PathBuf::from).unwrap_or_else(…)`
abbrev pub path_or : Var → String → String
path_or (present text) default = text
path_or not_present default = default
path_or (not_unicode path) default = path

abbrev pub or_bail {ℓ} : {A : Type ℓ} → String → Option A → Anyhow A
or_bail e none = bail e
or_bail e (some a) = value a

-- `parse_env_or` for an unsigned type whose largest value is `bound`.
unfoldable pub parse_env_or : Vars → ℕ → String → ℕ → Anyhow ℕ
parse_env_or vars bound name default = elim (vars name) [
  | present text ↦ or_bail ("invalid " <> name) (parse_uint bound text)
  | not_present ↦ value default
  | not_unicode _ ↦ bail ("failed to read " <> name)
]

-- The entries of a list, without the blank ones.
abbrev pub entries : String → List String
entries text = retain (λ entry. not (is_empty entry)) (map trim (split 44 text))

module _ (parse_ip : String → Option IpAddr) where
  -- `collect` stops at the first error.
  unfoldable pub collect : String → List String → Anyhow (List Cidr)
  collect name [] = value []
  collect name (entry ∷ rest) = do
    c ← or_bail ("invalid " <> name) (parse parse_ip entry)
    cs ← collect name rest
    value (c ∷ cs)

  unfoldable pub parse_cidr_list : Vars → String → Anyhow (List Cidr)
  parse_cidr_list vars name = elim (vars name) [
    | present text ↦ collect name (entries text)
    | not_present ↦ value []
    | not_unicode _ ↦ bail ("failed to read " <> name)
  ]

pub record Config : Type 0 where
  pub port : ℕ
  pub metrics_port : ℕ
  pub log_level : String
  pub language : String
  pub dictionary_url : String
  pub dictionary_dir : String
  pub refresh_interval_hours : ℕ
  pub db_path : String
  pub db_url : Option String
  pub auth_rate_limit_max : ℕ
  pub auth_rate_limit_window_seconds : ℕ
  pub auth_rate_limit_cooldown_seconds : ℕ
  pub dictionary_admin_cidrs : List Cidr
  pub trusted_proxies : List Cidr

abbrev pub distinct_ports : ℕ → ℕ → Anyhow (Unit {0})
distinct_ports port metrics_port =
    if eqb port metrics_port
    then bail "RUSTSPELL_PORT and RUSTSPELL_METRICS_PORT must be different"
    else value tt

abbrev pub is_postgres : String → Bool
is_postgres url = starts_with "postgres://" url || starts_with "postgresql://" url

abbrev pub checked_url : String → Anyhow (Option String)
checked_url url =
    if is_empty url
    then value none
    else if is_postgres url
    then value (some url)
    else bail "RUSTSPELL_DB_URL must be a postgres:// connection string"

unfoldable pub db_url_of : Var → Anyhow (Option String)
db_url_of (present url) = checked_url url
db_url_of _ = value none

module _ (parse_ip : String → Option IpAddr) (default_dictionary_dir default_db_path : String) where
  unfoldable pub load : Vars → Anyhow Config
  load vars = do
    port ← parse_env_or vars 65535 "RUSTSPELL_PORT" 3000
    metrics_port ← parse_env_or vars 65535 "RUSTSPELL_METRICS_PORT" 9090
    distinct_ports port metrics_port
    db_url ← db_url_of (vars "RUSTSPELL_DB_URL")
    refresh_interval_hours ←
        parse_env_or vars 18446744073709551615 "RUSTSPELL_REFRESH_INTERVAL_HOURS" 24
    auth_rate_limit_max ← parse_env_or vars 4294967295 "RUSTSPELL_AUTH_RATE_LIMIT_MAX" 10
    window_seconds ←
        parse_env_or vars 18446744073709551615 "RUSTSPELL_AUTH_RATE_LIMIT_WINDOW_SECONDS" 60
    cooldown_seconds ←
        parse_env_or vars 18446744073709551615 "RUSTSPELL_AUTH_RATE_LIMIT_COOLDOWN_SECONDS" 60
    dictionary_admin_cidrs ← parse_cidr_list parse_ip vars "RUSTSPELL_DICTIONARY_ADMIN_CIDRS"
    trusted_proxies ← parse_cidr_list parse_ip vars "RUSTSPELL_TRUSTED_PROXIES"
    value (record {
      port = port;
      metrics_port = metrics_port;
      log_level = text_or (vars "RUSTSPELL_LOG_LEVEL") "info";
      language = text_or (vars "RUSTSPELL_LANGUAGE") "en_US";
      dictionary_url =
          text_or (vars "RUSTSPELL_DICTIONARY_URL")
            "https://raw.githubusercontent.com/LibreOffice/dictionaries/master/en";
      dictionary_dir = path_or (vars "RUSTSPELL_DICTIONARY_DIR") default_dictionary_dir;
      refresh_interval_hours = refresh_interval_hours;
      db_path = path_or (vars "RUSTSPELL_DB_PATH") default_db_path;
      db_url = db_url;
      auth_rate_limit_max = auth_rate_limit_max;
      auth_rate_limit_window_seconds = window_seconds;
      auth_rate_limit_cooldown_seconds = cooldown_seconds;
      dictionary_admin_cidrs = dictionary_admin_cidrs;
      trusted_proxies = trusted_proxies;
    })
