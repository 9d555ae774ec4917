-- ===== src/Examples/Settings.antt =====
-- src/config.rs at concrete inputs: an environment that names a Postgres database and one proxy.
use rustspell_server.Base.{
  String, ◌≡◌, refl, Option, none, some, [], ◌∷◌, if◌then◌else◌, ◌==◌, string_eq,
}
use rustspell_server.Base.Text.{
  split, split_once, trim, trim_start, trim_end, parse_uint, digits_value,
}
use rustspell_server.Base.Anyhow.{value, bail}
use rustspell_server.Config.Cidr.{IpAddr, v4, canonical_ip, masked, mask_ip, parse}
use rustspell_server.Config.Load.{
  present, not_present, Vars, parse_env_or, collect, parse_cidr_list, Config, db_url_of, load,
}
use rustspell_server.Config.Load.Accepted.{IsAccepted, load-IsAccepted}

abbrev parse_ten : String → Option IpAddr
parse_ten text = if text == "10.0.0.1" then some (v4 167772161) else none

abbrev vars : Vars
vars name =
    if name == "RUSTSPELL_TRUSTED_PROXIES"
    then present " 10.0.0.1/8 , "
    else if name == "RUSTSPELL_DB_URL"
    then present "postgres://db/rustspell"
    else not_present

abbrev config : Config
config = record {
  port = 3000;
  metrics_port = 9090;
  log_level = "info";
  language = "en_US";
  dictionary_url = "https://raw.githubusercontent.com/LibreOffice/dictionaries/master/en";
  dictionary_dir = "./data";
  refresh_interval_hours = 24;
  db_path = "./data/rustspell.db";
  db_url = some "postgres://db/rustspell";
  auth_rate_limit_max = 10;
  auth_rate_limit_window_seconds = 60;
  auth_rate_limit_cooldown_seconds = 60;
  dictionary_admin_cidrs = [];
  trusted_proxies = record { network = v4 167772160; prefix = 8 } ∷ [];
}

load_is : load parse_ten "./data" "./data/rustspell.db" vars ≡ value config
unfolding load parse_env_or parse_cidr_list collect db_url_of parse split split_once trim trim_start
    trim_end parse_uint digits_value canonical_ip masked mask_ip
load_is = refl

load-IsAccepted_example : IsAccepted parse_ten vars config
load-IsAccepted_example =
    load-IsAccepted parse_ten vars "./data" "./data/rustspell.db" config load_is

same_ports :
    load parse_ten "" ""
      (λ name. if name == "RUSTSPELL_METRICS_PORT" then present "3000" else not_present)
    ≡ bail "RUSTSPELL_PORT and RUSTSPELL_METRICS_PORT must be different"
unfolding load parse_env_or parse_uint digits_value
same_ports = refl
