-- ===== src/Examples/Gates.antt =====
-- The gates of src/auth.rs, the recorder of src/usage.rs and the errors of src/error.rs, at concrete
-- inputs: requests with the key "b" of the tenant "t".
use rustspell_server.Base.{String, ◌≡◌, refl, true, string_eq, Option, none, some, []}
use rustspell_server.Base.Dict.{lookup}
use rustspell_server.Config.Cidr.{IpAddr, v4}
use rustspell_server.Auth.ClientIp.{client_ip}
use rustspell_server.Auth.Request.{Request, AppState, Moment, Next, reply}
use rustspell_server.Auth.Gates.{protected_spellcheck, require_usage_scope, require_platform_key}
use rustspell_server.Auth.Gates.Admission.{Spellcheck, protected_spellcheck-Spellcheck}
use rustspell_server.Base.{false}
use rustspell_server.Auth.Gates.{suspended, with_key, recorded}
use rustspell_server.Auth.Gates.Served.{protected_spellcheck-served}
use rustspell_server.Base.Dict.{modify}
use rustspell_server.Store.Data.{Store, is_active}
use rustspell_server.Store.Keys.{hash_key, authenticate, touch_last_used}
use rustspell_server.Store.Tenants.{get_tenant, try_consume_quota}
use rustspell_server.Auth.RateLimiter.{clear, check, check_window}
use rustspell_server.Auth.Request.{ip_eq}
use rustspell_server.Auth.Gates.Scope.{Scoped, require_usage_scope-Scoped}
use rustspell_server.Auth.Gates.Platform.{PlatformGate, require_platform_key-PlatformGate}
use rustspell_server.Usage.Recorder.{Sample, new_recorder, daily_key_eq, latency_key_eq}
use rustspell_server.Examples.Data.{codes, env_at}
use rustspell_server.Examples.TenantKeys.{store_b, key_b}

abbrev state : AppState
state = record {
  store = store_b;
  rate_limiter = record { state = []; max_failures = 10; window = 60; cooldown = 60 };
  usage = new_recorder;
  trusted_proxies = [];
  dictionary_admin_cidrs = [];
}

abbrev moment : Moment
moment = record { env = env_at 200 "z"; instant = 5; day = "2026-07-01"; elapsed = 3000000 }

abbrev request : Request
request = record {
  peer = some (v4 1);
  origin = none;
  x_api_key = some (some "rsk_bb");
  x_forwarded_for = none;
  key_record = none;
  usage_scope = none;
}

-- A handler that answers every request.
abbrev answer_all : Next
answer_all r a =
    reply
      (record {
        status = 200;
        problem = none;
        slug = none;
        language = some "en_US";
        retry_after = none;
      })
      a

protected_spellcheck-Spellcheck_example :
    Spellcheck codes moment answer_all request state
      (protected_spellcheck codes moment answer_all request state)
protected_spellcheck-Spellcheck_example =
    protected_spellcheck-Spellcheck codes moment answer_all request state

not_locked : check (client_ip request.peer) moment.instant state.rate_limiter ≡ clear
unfolding check check_window lookup client_ip
not_locked = refl

let_in : authenticate codes (env_at 200 "z") "rsk_bb" store_b ≡ (some key_b, store_b)
unfolding authenticate lookup hash_key is_active
let_in = refl

abbrev used : Store
used = touch_last_used (env_at 200 "z") "b" store_b

not_suspended : suspended (get_tenant "t" used) ≡ false
unfolding get_tenant touch_last_used lookup modify
not_suspended = refl

abbrev after_one : Store
after_one = (try_consume_quota "t" used).1

has_quota : try_consume_quota "t" used ≡ (true, after_one)
unfolding try_consume_quota touch_last_used lookup modify
has_quota = refl

protected_spellcheck-served_example :
    protected_spellcheck codes moment answer_all request state
    ≡ recorded moment "t" (answer_all (with_key key_b request) (record state { store = after_one }))
protected_spellcheck-served_example =
    protected_spellcheck-served codes moment answer_all request state "rsk_bb" "t" key_b store_b
      after_one not_locked refl let_in refl not_suspended tt has_quota

require_usage_scope-Scoped_example :
    Scoped answer_all
      (record request { key_record = some key_b })
      state
      key_b
      (require_usage_scope answer_all (record request { key_record = some key_b }) state)
require_usage_scope-Scoped_example =
    require_usage_scope-Scoped answer_all (record request { key_record = some key_b }) state key_b
      refl

require_platform_key-PlatformGate_example :
    PlatformGate codes
      (client_ip request.peer)
      true
      moment
      answer_all
      request
      state
      (require_platform_key codes moment answer_all request state)
require_platform_key-PlatformGate_example =
    require_platform_key-PlatformGate codes moment answer_all request state

abbrev no_parse : String → Option IpAddr
no_parse s = none

abbrev pub sample : Sample
sample = record {
  day = "2026-07-01";
  tenant_id = "t";
  language = "en_US";
  status = 200;
  error_slug = "";
  latency = 3000000;
}
