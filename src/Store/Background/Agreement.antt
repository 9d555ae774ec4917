-- ===== src/Store/Background/Agreement.antt =====
-- src/store.rs: a background write keeps the cache of keys and the table in agreement.
use rustspell_server.Base.{
  ℕ, String, ◌≡◌, Bool, true, false, Option, none, some, List, arith, All-map, string_eq,
}
use rustspell_server.Base.Dict.{option_map, lookup}
use rustspell_server.Store.Data.{
  KeyRecord, ApiKeyRow, Write, last_used, request_count, Store, key_record_from_row,
}
use rustspell_server.Store.Keys.Lookup.{row_of, map-IsUnique, row_of-map}
use rustspell_server.Store.Keys.Invariant.{Agrees, IsSane, Linked, Inv}
use rustspell_server.Store.Background.{use_row, persist, run_pending}

use_row-id : (at : ℕ) (id : String) (r : ApiKeyRow) → (use_row at id r).id ≡ r.id
use_row-id at id r = ground arith

use_row-key_hash : (at : ℕ) (id : String) (r : ApiKeyRow) → (use_row at id r).key_hash ≡ r.key_hash
use_row-key_hash at id r = ground arith

use_row-IsSane : (at : ℕ) (id : String) (r : ApiKeyRow) → IsSane r → IsSane (use_row at id r)
use_row-IsSane at id r h = ground arith

use_row-Agrees :
    (at : ℕ) (id : String) (k : KeyRecord) (r : ApiKeyRow) → Agrees k r → Agrees k (use_row at id r)
unfolding key_record_from_row
use_row-Agrees at id k r h = ground arith

use_row-Linked :
    (at : ℕ) (id h : String) (k : Option KeyRecord) (row : Option ApiKeyRow)
    → Linked h k row
    → Linked h k (option_map (use_row at id) row)
use_row-Linked at id h none row l = tt
use_row-Linked at id h (some k) none l = l
use_row-Linked at id h (some k) (some row) l = (l.0, use_row-Agrees at id k row l.1)

pub run_pending-Inv :
    (reached : Bool) (before : List Write) (w : Write) (after : List Write) (s : Store)
    → Inv s
    → Inv (run_pending reached before w after s)
unfolding run_pending persist
run_pending-Inv false before w after s v = record {
  distinct = v.distinct;
  unique = v.unique;
  sane = v.sane;
  linked = v.linked;
}
run_pending-Inv true before (request_count count id) after s v = record {
  distinct = v.distinct;
  unique = v.unique;
  sane = v.sane;
  linked = v.linked;
}
run_pending-Inv true before (last_used at id) after s v = record {
  distinct = v.distinct;
  unique =
      map-IsUnique (use_row at id) (use_row-id at id) (use_row-key_hash at id) s.db.api_keys
        v.unique;
  sane = All-map IsSane (use_row at id) (use_row-IsSane at id) s.db.api_keys v.sane;
  linked = λ h.
      rw (row_of-map (use_row at id) (use_row-id at id) (use_row-key_hash at id) h s.db.api_keys)
        (use_row-Linked at id h (lookup h s.keys) (row_of h s.db.api_keys) (v.linked h));
}
