-- ===== src/Store/Background.antt =====
-- src/store.rs: the background writes that `touch_last_used` and `try_consume_quota` spawn. Each runs at
-- some later time, in any order; one that fails is only logged.
pub mod Agreement
use rustspell_server.Base.{
  ℕ, String, ◌≡◌, Bool, true, false, Option, none, some, List, [], ◌∷◌, ◌++◌, map, if◌then◌else◌,
  ◌==◌, string_eq,
}
use rustspell_server.Base.Int.{as_i64}
use rustspell_server.Store.Data.{ApiKeyRow, TenantRow, Db, Write, last_used, request_count, Store}

abbrev pub use_row : ℕ → String → ApiKeyRow → ApiKeyRow
use_row at id r = if r.id == id then record r { last_used_at = some (as_i64 at) } else r

abbrev pub count_row : ℕ → String → TenantRow → TenantRow
count_row count id r = if r.id == id then record r { request_count = as_i64 count } else r

-- `UPDATE api_keys SET last_used_at = ? WHERE id = ?`, `UPDATE tenants SET request_count = ? WHERE id = ?`
unfoldable pub persist : Bool → Write → Db → Db
persist false w db = db
persist true (last_used at id) db = record db { api_keys = map (use_row at id) db.api_keys }
persist true (request_count count id) db = record db {
  tenants = map (count_row count id) db.tenants;
}

-- One of the pending writes runs, between those that stay.
unfoldable pub run_pending : Bool → List Write → Write → List Write → Store → Store
run_pending reached before w after s = record s {
  db = persist reached w s.db;
  pending = before ++ after;
}
