-- ===== src/Auth/Gates/Resolution.antt =====
-- src/auth.rs: the four ways in which the part that reads the key ends.
use rustspell_server.Base.{ℕ, String, ◌≡◌, refl, Option, none, some, List}
use rustspell_server.Error.{unauthorized, rate_limited}
use rustspell_server.Store.Data.{KeyRecord, Store}
use rustspell_server.Store.Keys.{authenticate}
use rustspell_server.Config.Cidr.{IpAddr}
use rustspell_server.Auth.RateLimiter.{Verdict, clear, wait, check}
use rustspell_server.Auth.Request.{ip_eq, Request, AppState, Moment, Answer, reject}
use rustspell_server.Auth.Gates.{
  text_of, fail_from, retry_secs, with_record, with_raw_key, when_clear, resolve_key,
}

module _ (sha256 : String → List ℕ) where
  -- An address that is locked out is turned away before its key is looked at, and nothing changes; a
  -- key that is missing or refused counts as a failure of the address; else the request goes on.
  pub data Resolution (ip : IpAddr) (m : Moment) (k : KeyRecord → AppState → Answer) (r : Request)
      (a : AppState) : Answer → Type 0 where
    locked :
        (n : ℕ)
        → check ip m.instant a.rate_limiter ≡ wait n
        → Resolution ip m k r a (reject (rate_limited (retry_secs n)) a)
    missing :
        check ip m.instant a.rate_limiter ≡ clear
        → text_of r.x_api_key ≡ none
        → Resolution ip m k r a (reject unauthorized (fail_from ip m a))
    refused :
        (raw_key : String) (s : Store)
        → check ip m.instant a.rate_limiter ≡ clear
        → text_of r.x_api_key ≡ some raw_key
        → authenticate sha256 m.env raw_key a.store ≡ (none, s)
        → Resolution ip m k r a (reject unauthorized (fail_from ip m (record a { store = s })))
    found :
        (raw_key : String) (key_record : KeyRecord) (s : Store)
        → check ip m.instant a.rate_limiter ≡ clear
        → text_of r.x_api_key ≡ some raw_key
        → authenticate sha256 m.env raw_key a.store ≡ (some key_record, s)
        → Resolution ip m k r a (k key_record (record a { store = s }))

  module _ (ip : IpAddr) (m : Moment) (k : KeyRecord → AppState → Answer) (r : Request)
      (a : AppState) where
    resolve_record :
        (raw_key : String) (o : Option KeyRecord × Store)
        → check ip m.instant a.rate_limiter ≡ clear
        → text_of r.x_api_key ≡ some raw_key
        → authenticate sha256 m.env raw_key a.store ≡ o
        → Resolution ip m k r a (with_record sha256 ip m k o a)
    resolve_record raw_key (none, s) c t e = refused raw_key s c t e
    resolve_record raw_key (some f, s) c t e = found raw_key f s c t e

    resolve_raw :
        (o : Option String)
        → check ip m.instant a.rate_limiter ≡ clear
        → text_of r.x_api_key ≡ o
        → Resolution ip m k r a (with_raw_key sha256 ip m k o a)
    resolve_raw none c t = missing c t
    resolve_raw (some raw_key) c t =
        resolve_record raw_key (authenticate sha256 m.env raw_key a.store) c t refl

    resolve_verdict :
        (v : Verdict)
        → check ip m.instant a.rate_limiter ≡ v
        → Resolution ip m k r a (when_clear sha256 ip m k (text_of r.x_api_key) v a)
    resolve_verdict clear c = resolve_raw (text_of r.x_api_key) c refl
    resolve_verdict (wait n) c = locked n c

    pub resolve_key-Resolution : Resolution ip m k r a (resolve_key sha256 ip m k r a)
    unfolding resolve_key
    resolve_key-Resolution = resolve_verdict (check ip m.instant a.rate_limiter) refl
