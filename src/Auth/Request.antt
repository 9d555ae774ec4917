-- ===== src/Auth/Request.antt =====
-- src/auth.rs and src/handlers.rs: what a request and the shared state hold, as far as the middleware
-- reads them. A header is its value, with the text that `to_str` gives where it is visible ASCII.
use rustspell_server.Base.{ℕ, String, ◌≡◌, ◌↔◌, Bool, Option, List, arith, Eq}
use rustspell_server.Error.{AppError, Response, into_response}
use rustspell_server.Store.Data.{KeyRecord, Store, Env}
use rustspell_server.Config.Cidr.{IpAddr, v4, v6, Cidr, ip_beq}
use rustspell_server.Auth.RateLimiter.{RateLimiter}
use rustspell_server.Usage.Recorder.{UsageRecorder}

pub ip_beq_iff : (a b : IpAddr) → (ip_beq a b ≡ Bool.true) ↔ (a ≡ b)
ip_beq_iff (v4 a) (v4 b) = ground arith
ip_beq_iff (v6 a) (v6 b) = ground arith
ip_beq_iff (v4 a) (v6 b) = ground arith
ip_beq_iff (v6 a) (v4 b) = ground arith

instance abbrev pub ip_eq : Eq IpAddr
ip_eq = record { test = ip_beq; test_iff = ip_beq_iff }

-- Whose usage a request may read.
pub data UsageScope : Type 0 where
  platform : UsageScope
  tenant : String → UsageScope

-- The headers and the extensions.
pub record Request : Type 0 where
  pub peer : Option IpAddr
  pub origin : Option (Option String)
  pub x_api_key : Option (Option String)
  pub x_forwarded_for : Option (Option String)
  pub key_record : Option KeyRecord
  pub usage_scope : Option UsageScope

pub record AppState : Type 0 where
  pub store : Store
  pub rate_limiter : RateLimiter IpAddr
  pub usage : UsageRecorder
  pub trusted_proxies : List Cidr
  pub dictionary_admin_cidrs : List Cidr

-- What one request finds outside: the clock of the store, the monotonic clock in nanoseconds, the
-- day, and the time that the handler takes.
pub record Moment : Type 0 where
  pub env : Env
  pub instant : ℕ
  pub day : String
  pub elapsed : ℕ

pub data Answer : Type 0 where
  reply : Response → AppState → Answer
  panic : String → Answer

-- A handler with the layers inside; a layer takes the next one.
abbrev pub Next : Type 0
Next = Request → AppState → Answer

abbrev pub reject : AppError → AppState → Answer
reject e a = reply (into_response e) a
