-- ===== src/Examples/Cli.antt =====
-- src/cli.rs at concrete inputs: a reset of the key "a" that someone agrees to.
use rustspell_server.Base.{
  inl, ℕ, String, ◌≡◌, ◌≢◌, refl, true, Option, none, some, [], ◌∷◌, arith, string_eq,
}
use rustspell_server.Base.Text.{trim, trim_start, trim_end}
use rustspell_server.Base.Dict.{lookup, insert, remove}
use rustspell_server.Base.Anyhow.{value, bail}
use rustspell_server.Store.Data.{
  platform, parse_role, is_active, key_record_from_row, KeyRecord, CreatedApiKey, Db, Store, ok,
}
use rustspell_server.Store.Keys.{
  hash_key, generate_raw_key, rehash, set_key_hash, rotate_key_by_hash,
  reset_bootstrap_platform_key, authenticate, bootstrap_key,
}
use rustspell_server.Store.Keys.Reset.{reset_bootstrap_platform_key-authenticate}
use rustspell_server.Store.Open.{
  DbConfig, reload_caches, reload_keys, reload_tenants, reload_origins, reload_dictionaries,
  open_internal, open_for_cli,
}
use rustspell_server.Cli.{
  Console, parse_arg, parse_from, parse_args, require_terminal, lowercase_is, confirm_interactive,
  confirm, print_output, printed, run,
}
use rustspell_server.Cli.Run.{HasRun, run-HasRun}
use rustspell_server.Examples.Data.{codes, env_at}
use rustspell_server.Examples.Keys.{key_a, row_a, store_a, store_a-Inv}

abbrev connect : String → ℕ → Option Db
connect url n = some store_a.db

abbrev local : DbConfig
local = record { db_url = none; db_path = "data/rustspell.db" }

abbrev at_terminal : Console
at_terminal = record {
  stdin_is_terminal = true;
  stderr_is_terminal = true;
  prompted = true;
  line = some " Yes\n";
}

abbrev brackets : String → String
brackets key = key

abbrev key_reset : KeyRecord
key_reset = record key_a { key_hash = "72736b5f6262" }

abbrev created_reset : CreatedApiKey
created_reset = record { key_record = key_reset; raw_key = "rsk_bb" }

abbrev store_reset : Store
store_reset = record store_a {
  db = record store_a.db { api_keys = record row_a { key_hash = "72736b5f6262" } ∷ [] };
  keys = (("72736b5f6262", key_reset) ∷ []);
}

json_twice :
    parse_args ("--json" ∷ "--json" ∷ []) ≡ bail "--json and --quiet are mutually exclusive"
unfolding parse_args parse_from parse_arg
json_twice = refl

run_is :
    run brackets codes connect
      (env_at 150 "y")
      (env_at 200 "b")
      none
      at_terminal
      (value local)
      ("--json" ∷ [])
    ≡ printed "rsk_bb" created_reset store_reset
unfolding run parse_args parse_from parse_arg require_terminal lowercase_is confirm_interactive
    confirm print_output trim trim_start trim_end open_internal open_for_cli reload_caches
    reload_keys reload_tenants reload_origins reload_dictionaries key_record_from_row parse_role
    reset_bootstrap_platform_key is_active rotate_key_by_hash rehash set_key_hash hash_key
    generate_raw_key insert remove lookup
run_is = refl

run-HasRun_example :
    HasRun brackets codes
      (env_at 200 "b")
      at_terminal
      ("--json" ∷ [])
      "rsk_bb"
      created_reset
      store_reset
run-HasRun_example =
    run-HasRun brackets codes connect (env_at 150 "y") (env_at 200 "b") none at_terminal local
      ("--json" ∷ []) "rsk_bb" created_reset store_reset (omega arith) ((tt, tt), (tt, tt))
      (inl run_is)

at_sent : lookup (hash_key codes "rsk_aa") store_a.keys ≡ some key_a
unfolding lookup hash_key
at_sent = refl

boot_a : bootstrap_key codes 200 key_a ≡ true
unfolding is_active
boot_a = refl

reset_is :
    reset_bootstrap_platform_key codes (env_at 200 "b") store_a ≡ ok created_reset store_reset
unfolding reset_bootstrap_platform_key is_active rotate_key_by_hash rehash set_key_hash hash_key
    generate_raw_key insert remove lookup
reset_is = refl

other_hash : hash_key codes "rsk_bb" ≢ hash_key codes "rsk_aa"
unfolding hash_key
other_hash e = ground (arith, string_eq.test_iff "72736b5f6262" "72736b5f6161")

live_reset : is_active key_reset 300 ≡ true
unfolding is_active
live_reset = refl

reset_bootstrap_platform_key-authenticate_example :
    (key_reset.role ≡ platform)
    × (is_active key_reset 200 ≡ true)
    × (authenticate codes (env_at 300 "z") "rsk_bb" store_reset ≡ (some key_reset, store_reset))
    × (authenticate codes (env_at 300 "z") "rsk_aa" store_reset ≡ (none, store_reset))
reset_bootstrap_platform_key-authenticate_example =
    reset_bootstrap_platform_key-authenticate codes (env_at 200 "b") (env_at 300 "z") "rsk_aa"
      store_a store_reset key_a created_reset store_a-Inv at_sent boot_a reset_is other_hash
      live_reset
