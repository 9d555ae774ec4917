-- ===== src/Examples/Keys.antt =====
-- src/store.rs, API keys, at concrete inputs: a platform key "a", made at time 100.
use rustspell_server.Base.{
  String, ◌≡◌, ◌≢◌, refl, subst, sym, string_eq, true, Option, none, some, [], ◌∷◌, arith,
}
use rustspell_server.Base.Int.{pos}
use rustspell_server.Base.Dict.{lookup, insert}
use rustspell_server.Store.After.{After}
use rustspell_server.Store.Data.{
  platform, as_str, KeyRecord, is_active, ApiKeyRow, CreatedApiKey, Store, ok,
}
use rustspell_server.Store.Keys.{
  hash_key, generate_raw_key, insert_api_key, api_key_row, create_key_internal, authenticate,
}
use rustspell_server.Store.Keys.Invariant.{Inv, create_key_internal-Inv}
use rustspell_server.Store.Keys.Lifecycle.{authenticate_sound}
use rustspell_server.Store.Keys.History.{Reachable-Inv, start, step, creates, Leaves}
use rustspell_server.Examples.Data.{empty_store, codes, env_at}

abbrev pub key_a : KeyRecord
key_a = record {
  id = "a";
  tenant_id = none;
  label = "bootstrap";
  role = platform;
  key_hash = "72736b5f6161";
  created_at = 100;
  expires_at = none;
  last_used_at = none;
  revoked_at = none;
}

abbrev pub created_a : CreatedApiKey
created_a = record { key_record = key_a; raw_key = "rsk_aa" }

abbrev pub row_a : ApiKeyRow
row_a = record {
  id = "a";
  tenant_id = none;
  label = "bootstrap";
  role = "platform";
  key_hash = "72736b5f6161";
  created_at = pos 100;
  expires_at = none;
  last_used_at = none;
  revoked_at = none;
}

abbrev pub store_a : Store
store_a = record empty_store {
  db = record { tenants = []; tenant_origins = []; api_keys = row_a ∷ []; dictionaries = [] };
  keys = (("72736b5f6161", key_a) ∷ []);
}

creation_is :
    create_key_internal codes (env_at 100 "a") none "bootstrap" platform none empty_store
    ≡ ok created_a store_a
unfolding create_key_internal hash_key generate_raw_key insert_api_key api_key_row insert as_str
creation_is = refl

empty-Inv : Inv empty_store
unfolding lookup
empty-Inv = record { distinct = tt; unique = tt; sane = tt; linked = λ h. tt }

none_named : ◌≢◌ {A = Option String} none (some "")
none_named e = cc

pub store_a-Inv : Inv store_a
store_a-Inv = subst (After Inv) creation_is (
    create_key_internal-Inv codes (env_at 100 "a") none "bootstrap" platform none empty_store
      (omega arith) tt none_named empty-Inv)

Leaves-a :
    Leaves
      (create_key_internal codes (env_at 100 "a") none "bootstrap" platform none empty_store)
      store_a
Leaves-a = subst (λ o. Leaves o store_a) (sym creation_is) refl

Reachable-Inv_example : Inv store_a
Reachable-Inv_example = Reachable-Inv codes empty_store store_a empty-Inv (
    step empty_store store_a start (
      creates (env_at 100 "a") none "bootstrap" platform none store_a (omega arith) tt none_named
        Leaves-a))

authenticate_is : authenticate codes (env_at 200 "z") "rsk_aa" store_a ≡ (some key_a, store_a)
unfolding authenticate lookup hash_key is_active
authenticate_is = refl

authenticate_sound_example :
    (key_a.key_hash ≡ hash_key codes "rsk_aa") × (is_active key_a 200 ≡ true)
authenticate_sound_example =
    authenticate_sound codes (env_at 200 "z") "rsk_aa" store_a store_a key_a store_a-Inv
      authenticate_is
