-- ===== src/Lib.antt =====
-- rustspell-server: a spell-checking HTTP service for several tenants, with API keys, quotas,
-- registered browser origins and usage accounting. The paths below are from the repository's root.
--
-- The parts. A start reads the configuration (src/config.rs), opens the store (src/store.rs) from its
-- tables and makes a platform key where there is none; the command of src/cli.rs resets that key. A
-- request goes through the middleware of src/auth.rs, which asks the store for the key, the tenant
-- and the origin, counts failures in a rate limiter, takes one unit of the tenant's quota and
-- reports the outcome to the recorder of src/usage.rs; the stacks are those of `build_app` in
-- src/handlers.rs. A handler then checks its input (src/models.rs), calls the store, the usage
-- tables or the engine of a language (src/engine.rs), whose dictionary src/dictionary.rs downloads
-- and caches. Errors become problem documents in src/error.rs.
--
--   * Base: shared names, lists, dictionaries (`HashMap` as an association list, `group_into` for the
--     loops that fill one), `i64`, texts, a sort, the operations of `f64` that the program calls, and
--     `anyhow::Result`.
--   * Error: src/error.rs, `AppError` and `into_response`.
--   * Config.Cidr: src/config.rs, `Cidr`, `canonical_ip` and `mask_ip`. Config.Load: `load`,
--     `parse_env_or` and `parse_cidr_list`; the environment is a function from names.
--   * Store.Data: the records, tables, caches and the monad of a call in src/store.rs. A call gets
--     an `Env` (its clock, its random identifiers, and which of its statements reach the database)
--     and ends in a value, an error or a panic, with the store as it then is. A statement that
--     fails, or violates a constraint of the schema, changes nothing in the database.
--   * Store.Keys, Store.Tenants, Store.Origins, Store.Dictionaries: the operations of `Store`, each
--     under the name that it has in the source.
--   * Store.Background: the writes that `touch_last_used` and `try_consume_quota` spawn; they wait in
--     the store as `pending` and run in any order.
--   * Store.Open: `reload_caches`, `open_internal`, `open_for_cli` and `open`, here `open_store`.
--   * Usage.Recorder: src/usage.rs, `UsageRecorder` and `bucket_for`. Usage.Days: `format_day` and
--     `parse_day`. Usage.Windows: `resolve_window`. Usage.Aggregate and its child Percentile: the four
--     aggregates. Usage.Rollup and Usage.Rows: the tables of the rollup in src/store.rs, with
--     `flush_usage`, the two queries and `purge_usage_before`.
--   * Models: src/models.rs, the validation of requests.
--   * Engine: src/engine.rs, `tokenize`, and the loops of the spell-check handlers. Engine.Registry:
--     `EngineRegistry`, whose loads of a language other than the default pass one lock.
--   * Dictionary: src/dictionary.rs, `DictionaryManager`, with the network, the clock and the files as
--     arguments.
--   * Auth.RateLimiter, Auth.ClientIp, Auth.Gates: src/auth.rs, and `record_usage` of
--     src/handlers.rs. A layer is a function of the handler with the layers inside it.
--   * Handlers: src/handlers.rs, the other handlers: Keys, Tenants, Origins, Usage and Languages, with
--     the conversions of src/models.rs into answers (Metadata).
--   * Cors: src/middleware.rs, the predicate of `cors_layer`.
--   * Cli: src/cli.rs, `reset-platform-key`, with the terminal and the file of secrets as
--     arguments.
--   * Examples: the theorems at concrete inputs.
--
-- Numbers are natural numbers with the wrap-around of `u64`, `u32` and `u128` written out; a column
-- of type BIGINT is an integer, and the casts of the source are `as_i64` and `as_u64`. Loops are
-- recursions on a list, but for two: the download counts its five tries down, and `padded_from`
-- writes at most twenty digits, which Usage.Days.Digits shows to be enough for a number of 64 bits.
--
-- Parameters: SHA-256 (`sha256`), the parsers of one IP address (`parse_ip`) and of a URI
-- (`parse_uri`), the dictionary (`check`, `suggest`) and its parser (`parse_engine`), the operations
-- of `f64`, white space as a regular expression has it, `serde_json`, and the database that a URL
-- leads to (`connect`); nothing is assumed of any of them. Not modelled: HTTP parsing and JSON,
-- metrics, the OpenAPI document and the page that shows it, the start of the server with its
-- signals and background loops, and the text of the statements in `init_schema`; each only calls a
-- library or writes text. Concurrent requests interleave between critical sections; here each
-- operation of the store is one step. The database is the one process's own.
pub mod Base
pub mod Error
pub mod Config
pub mod Store
pub mod Usage
pub mod Auth
pub mod Engine
pub mod Models
pub mod Handlers
pub mod Cli
pub mod Cors
pub mod Dictionary
pub mod Examples
