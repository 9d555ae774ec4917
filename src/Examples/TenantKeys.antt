-- ===== src/Examples/TenantKeys.antt =====
-- src/store.rs, at concrete inputs: the tenant "t" with its admin key "b", made at time 100.
use rustspell_server.Base.{
  find, ◌==◌, String, ◌≡◌, ◌≢◌, refl, sym, subst, string_eq, option_eq, true, Option, none, some,
  [], ◌∷◌, arith,
}
use rustspell_server.Base.Int.{pos}
use rustspell_server.Base.Dict.{lookup, insert, remove, modify}
use rustspell_server.Store.After.{After}
use rustspell_server.Store.Data.{
  admin, as_str, KeyRecord, is_active, ApiKeyRow, TenantInfo, TenantRow, Store, ok,
}
use rustspell_server.Store.Keys.{
  hash_key, generate_raw_key, insert_api_key, api_key_row, set_revoked_at, set_key_hash,
  create_key_internal, list_keys, revoke_key, rehash, rotate_key_by_hash, rotate_key, authenticate,
}
use rustspell_server.Store.Keys.Invariant.{Inv, create_key_internal-Inv}
use rustspell_server.Store.Keys.History.{Leaves, Reachable, start, step, creates}
use rustspell_server.Store.Keys.Permanence.{revoke_key-Reachable}
use rustspell_server.Store.Keys.Rotated.{rotate_key-authenticate}
use rustspell_server.Store.Keys.Rotation.{rotated}
use rustspell_server.Store.Keys.Tenancy.{Keeps, revoke_key-Keeps}
use rustspell_server.Examples.Data.{empty_store, codes, env_at}

abbrev pub tenant_t : TenantInfo
tenant_t = record {
  id = "t";
  name = "Tee";
  language = "en_US";
  quota_limit = 2;
  request_count = 0;
  period_start = none;
  period_end = none;
  suspended_at = none;
  created_at = 50;
}

abbrev pub row_t : TenantRow
row_t = record {
  id = "t";
  name = "Tee";
  language = "en_US";
  quota_limit = pos 2;
  request_count = pos 0;
  period_start = none;
  period_end = none;
  suspended_at = none;
  created_at = pos 50;
}

abbrev pub store_t : Store
store_t = record empty_store {
  db = record { tenants = row_t ∷ []; tenant_origins = []; api_keys = []; dictionaries = [] };
  tenants = (("t", tenant_t) ∷ []);
}

abbrev pub key_b : KeyRecord
key_b = record {
  id = "b";
  tenant_id = some "t";
  label = "default";
  role = admin;
  key_hash = "72736b5f6262";
  created_at = 100;
  expires_at = some 1000;
  last_used_at = none;
  revoked_at = none;
}

abbrev row_b : ApiKeyRow
row_b = record {
  id = "b";
  tenant_id = some "t";
  label = "default";
  role = "admin";
  key_hash = "72736b5f6262";
  created_at = pos 100;
  expires_at = some (pos 1000);
  last_used_at = none;
  revoked_at = none;
}

abbrev pub store_b : Store
store_b = record store_t {
  db = record store_t.db { api_keys = row_b ∷ [] };
  keys = (("72736b5f6262", key_b) ∷ []);
}

creation_is :
    create_key_internal codes (env_at 100 "b") (some "t") "default" admin (some 1000) store_t
    ≡ ok (record { key_record = key_b; raw_key = "rsk_bb" }) store_b
unfolding create_key_internal hash_key generate_raw_key insert_api_key api_key_row insert as_str
creation_is = refl

store_t-Inv : Inv store_t
unfolding lookup
store_t-Inv = record { distinct = tt; unique = tt; sane = tt; linked = λ h. tt }

t_named : ◌≢◌ {A = Option String} (some "t") (some "")
t_named e = ground (arith, string_eq.test_iff "t" "")

pub store_b-Inv : Inv store_b
store_b-Inv = subst (After Inv) creation_is (
    create_key_internal-Inv codes (env_at 100 "b") (some "t") "default" admin (some 1000) store_t
      (omega arith) (omega arith) t_named store_t-Inv)

at_b : lookup "72736b5f6262" store_b.keys ≡ some key_b
unfolding lookup
at_b = refl

at_sent : lookup (hash_key codes "rsk_bb") store_b.keys ≡ some key_b
unfolding lookup hash_key
at_sent = refl

abbrev store_revoked : Store
store_revoked = record store_t {
  db = record store_t.db { api_keys = record row_b { revoked_at = some (pos 200) } ∷ [] };
  keys = (("72736b5f6262", record key_b { revoked_at = some 200 }) ∷ []);
}

revocation_is : revoke_key (env_at 200 "z") "t" "b" store_b ≡ ok true store_revoked
unfolding revoke_key set_revoked_at modify
revocation_is = refl

abbrev key_b' : KeyRecord
key_b' = record key_b { key_hash = "72736b5f6363" }

abbrev store_rotated : Store
store_rotated = record store_t {
  db = record store_t.db { api_keys = record row_b { key_hash = "72736b5f6363" } ∷ [] };
  keys = (("72736b5f6363", key_b') ∷ []);
}

rotation_is :
    rotate_key codes (env_at 200 "c") "t" "b" store_b
    ≡ ok (some (record { key_record = key_b'; raw_key = "rsk_cc" })) store_rotated
unfolding rotate_key rotate_key_by_hash rehash set_key_hash hash_key generate_raw_key insert remove
    lookup
rotation_is = refl

active_b : is_active key_b 300 ≡ true
unfolding is_active
active_b = refl

old_hash : hash_key codes "rsk_bb" ≡ "72736b5f6262"
unfolding hash_key
old_hash = refl

other_hash : ◌≢◌ {A = String} (hash_key codes "rsk_cc") "72736b5f6262"
unfolding hash_key
other_hash e = ground (arith, string_eq.test_iff "72736b5f6363" "72736b5f6262")

rotate_key-authenticate_example :
    (key_b' ≡ rotated (hash_key codes "rsk_cc") key_b)
    × (authenticate codes (env_at 300 "z") "rsk_cc" store_rotated ≡ (some key_b', store_rotated))
    × (authenticate codes (env_at 300 "z") "rsk_bb" store_rotated ≡ (none, store_rotated))
rotate_key-authenticate_example =
    rotate_key-authenticate codes (env_at 200 "c") (env_at 300 "z") "t" "b" "rsk_bb" store_b
      store_rotated "72736b5f6262" key_b (record { key_record = key_b'; raw_key = "rsk_cc" })
      store_b-Inv at_b refl rotation_is active_b old_hash other_hash

unlisted_is : find (λ (k : KeyRecord). k.id == "b") (list_keys "u" store_b) ≡ none
unfolding list_keys
unlisted_is = refl

foreign_b : key_b.tenant_id ≢ some "u"
foreign_b e = ground (arith, string_eq.test_iff "t" "u")

revoke_key-Keeps_example :
    After (Keeps "72736b5f6262" key_b) (revoke_key (env_at 200 "c") "u" "b" store_b)
revoke_key-Keeps_example =
    revoke_key-Keeps "u" "b" store_b "72736b5f6262" key_b store_b-Inv at_b foreign_b
      (env_at 200 "c")

new_hash : ◌≢◌ {A = String} (hash_key codes (generate_raw_key (env_at 200 "c"))) "72736b5f6262"
unfolding hash_key generate_raw_key
new_hash e = ground (arith, string_eq.test_iff "72736b5f6363" "72736b5f6262")

abbrev key_c : KeyRecord
key_c = record key_b { id = "c"; key_hash = "72736b5f6363"; created_at = 250 }

-- After the revocation of "b", the tenant gets a key "c".
abbrev store_later : Store
store_later = record store_revoked {
  db = record store_revoked.db {
    api_keys =
        record row_b { revoked_at = some (pos 200) }
        ∷ record row_b { id = "c"; key_hash = "72736b5f6363"; created_at = pos 250 }
        ∷ [];
  };
  keys = ("72736b5f6262", record key_b { revoked_at = some 200 }) ∷ ("72736b5f6363", key_c) ∷ [];
}

later_is :
    create_key_internal codes (env_at 250 "c") (some "t") "default" admin (some 1000) store_revoked
    ≡ ok (record { key_record = key_c; raw_key = "rsk_cc" }) store_later
unfolding create_key_internal hash_key generate_raw_key insert_api_key api_key_row insert as_str
later_is = refl

later_reached : Reachable codes store_revoked store_later
later_reached = step store_revoked store_later start (
    creates (env_at 250 "c") (some "t") "default" admin (some 1000) store_later (omega arith)
      (omega arith) t_named (subst (λ o. Leaves o store_later) (sym later_is) refl))

later_lets_in : authenticate codes (env_at 300 "z") "rsk_cc" store_later ≡ (some key_c, store_later)
unfolding authenticate hash_key is_active lookup
later_lets_in = refl

revoke_key-Reachable_example : ◌≢◌ {A = String} "c" "b"
revoke_key-Reachable_example =
    revoke_key-Reachable codes (env_at 200 "z") (env_at 300 "z") "t" "b" "rsk_cc" store_b
      store_revoked store_later store_later key_c (omega arith) store_b-Inv revocation_is
      later_reached later_lets_in
