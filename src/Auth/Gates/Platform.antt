-- ===== src/Auth/Gates/Platform.antt =====
-- src/auth.rs: the gates for platform keys.
use rustspell_server.Base.{
  ℕ, String, ◌≡◌, refl, sym, subst, ◌∙◌, inl, inr, Bool, true, false, not, ◌&&◌, arith, Option,
  none, some, List, Bool-cases, if◌then◌else◌, is_some,
}
use rustspell_server.Error.{forbidden, unauthorized, rate_limited}
use rustspell_server.Store.Data.{Role, platform, admin, standard, role_beq, KeyRecord, Store}
use rustspell_server.Store.Keys.{authenticate, touch_last_used}
use rustspell_server.Config.Cidr.{IpAddr}
use rustspell_server.Auth.RateLimiter.{clear, wait, check}
use rustspell_server.Auth.ClientIp.{client_ip, resolved_client_ip}
use rustspell_server.Auth.Request.{ip_eq, Request, AppState, Moment, Answer, Next, reject}
use rustspell_server.Auth.Gates.{
  text_of, fail_from, retry_secs, with_key, outside_cidrs, require_platform_key,
  require_dictionary_admin,
}
use rustspell_server.Auth.Gates.Resolution.{
  Resolution, locked, missing, refused, found, resolve_key-Resolution,
}

role_beq-platform : (r : Role) → role_beq r platform ≡ true → r ≡ platform
role_beq-platform platform e = refl
role_beq-platform admin e = cc
role_beq-platform standard e = cc

and_both : (a b : Bool) → (a && b) ≡ true → (a ≡ true) × (b ≡ true)
and_both a b e = ground arith

one_test : (b : Bool) (x y : Answer) → (if not b then x else y) ≡ (if b && true then y else x)
one_test true x y = refl
one_test false x y = refl

two_tests :
    (b outside : Bool) (x y : Answer)
    → (if not b then x else if outside then x else y) ≡ (if b && not outside then y else x)
two_tests true true x y = refl
two_tests true false x y = refl
two_tests false outside x y = refl

module _ (sha256 : String → List ℕ) where
  -- A request that counts for the address `ip`, at a gate for platform keys: a browser's, and one of
  -- an address that is locked out, is turned away and nothing changes; one without an active key
  -- counts as a failure; one with another key, or of an address that is not allowed, is refused
  -- and counts as no failure; and an active platform key goes on.
  pub data PlatformGate (ip : IpAddr) (allowed : Bool) (m : Moment) (next : Next) (r : Request)
      (a : AppState) : Answer → Type 0 where
    browser : is_some r.origin ≡ true → PlatformGate ip allowed m next r a (reject forbidden a)
    locked_out :
        (n : ℕ)
        → is_some r.origin ≡ false
        → check ip m.instant a.rate_limiter ≡ wait n
        → PlatformGate ip allowed m next r a (reject (rate_limited (retry_secs n)) a)
    no_key :
        is_some r.origin ≡ false
        → check ip m.instant a.rate_limiter ≡ clear
        → text_of r.x_api_key ≡ none
        → PlatformGate ip allowed m next r a (reject unauthorized (fail_from ip m a))
    bad_key :
        (raw_key : String) (s : Store)
        → is_some r.origin ≡ false
        → check ip m.instant a.rate_limiter ≡ clear
        → text_of r.x_api_key ≡ some raw_key
        → authenticate sha256 m.env raw_key a.store ≡ (none, s)
        → PlatformGate ip allowed m next r a
            (reject unauthorized (fail_from ip m (record a { store = s })))
    not_allowed :
        (raw_key : String) (k : KeyRecord) (s : Store)
        → is_some r.origin ≡ false
        → check ip m.instant a.rate_limiter ≡ clear
        → text_of r.x_api_key ≡ some raw_key
        → authenticate sha256 m.env raw_key a.store ≡ (some k, s)
        → (role_beq k.role platform && allowed) ≡ false
        → PlatformGate ip allowed m next r a (reject forbidden (record a { store = s }))
    admitted :
        (raw_key : String) (k : KeyRecord) (s : Store)
        → is_some r.origin ≡ false
        → check ip m.instant a.rate_limiter ≡ clear
        → text_of r.x_api_key ≡ some raw_key
        → authenticate sha256 m.env raw_key a.store ≡ (some k, s)
        → k.role ≡ platform
        → allowed ≡ true
        → PlatformGate ip allowed m next r a
            (next (with_key k r) (record a { store = touch_last_used m.env k.id s }))

  module _ (ip : IpAddr) (allowed : Bool) (m : Moment) (next : Next) (r : Request)
      (a : AppState) where
    abbrev Goal : Answer → Type 0
    Goal = PlatformGate ip allowed m next r a

    -- What both gates do with the key that they found.
    Resolution-PlatformGate :
        (kont : KeyRecord → AppState → Answer) (x : Answer)
        → is_some r.origin ≡ false
        → ((k : KeyRecord) (s : Store)
            → kont k (record a { store = s }) ≡ (
                if role_beq k.role platform && allowed
                then next (with_key k r) (record a { store = touch_last_used m.env k.id s })
                else reject forbidden (record a { store = s })))
        → Resolution sha256 ip m kont r a x
        → Goal x
    Resolution-PlatformGate kont x server does (locked n c) = locked_out n server c
    Resolution-PlatformGate kont x server does (missing c t) = no_key server c t
    Resolution-PlatformGate kont x server does (refused raw_key s c t e) =
        bad_key raw_key s server c t e
    Resolution-PlatformGate kont x server does (found raw_key k s c t e) =
        elim (Bool-cases (role_beq k.role platform && allowed)) [
          | inl fits ↦
              let (role_is, here) = and_both (role_beq k.role platform) allowed fits in
              subst Goal (sym (does k s ∙ rw fits refl))
                (admitted raw_key k s server c t e (role_beq-platform k.role role_is) here)
          | inr other ↦
              subst Goal (sym (does k s ∙ rw other refl))
                (not_allowed raw_key k s server c t e other)
        ]

  -- The gate of `/tenants*` counts a request for its peer. A browser's request, and one of an
  -- address that is locked out, is turned away and nothing changes, the failures included; one
  -- without a key, or whose key the store refuses, is counted as a failure; one with a key of
  -- another role is refused and counted as none; and a platform key goes on.
  pub require_platform_key-PlatformGate :
      (m : Moment) (next : Next) (r : Request) (a : AppState)
      → PlatformGate (client_ip r.peer) true m next r a (require_platform_key sha256 m next r a)
  unfolding require_platform_key
  require_platform_key-PlatformGate m next r a = elim (Bool-cases (is_some r.origin)) [
    | inl here ↦ rw here (browser here)
    | inr server ↦ rw server (
        Resolution-PlatformGate (client_ip r.peer) true m next r a _ _ server
          (λ k s. one_test (role_beq k.role platform) _ _)
          (resolve_key-Resolution sha256 _ m _ r a))
  ]

  -- The gate of `POST /dictionaries` counts a request for its resolved address. A browser's
  -- request, and one of an address that is locked out, is turned away and nothing changes, the
  -- failures included; one without a key, or whose key the store refuses, is counted as a failure;
  -- one with a key of another role, or from outside the configured ranges, is refused and counted
  -- as none; and a platform key from inside goes on.
  pub require_dictionary_admin-PlatformGate :
      (parse_ip : String → Option IpAddr) (m : Moment) (next : Next) (r : Request) (a : AppState)
      → let ip =
          resolved_client_ip parse_ip
            (client_ip r.peer)
            a.trusted_proxies
            (text_of r.x_forwarded_for) in
        PlatformGate ip
          (not (outside_cidrs ip a))
          m
          next
          r
          a
          (require_dictionary_admin sha256 parse_ip m next r a)
  unfolding require_dictionary_admin
  require_dictionary_admin-PlatformGate parse_ip m next r a =
      let ip =
        resolved_client_ip parse_ip (client_ip r.peer) a.trusted_proxies
          (text_of r.x_forwarded_for) in
      elim (Bool-cases (is_some r.origin)) [
        | inl here ↦ rw here (browser here)
        | inr server ↦ rw server (
            Resolution-PlatformGate ip (not (outside_cidrs ip a)) m next r a _ _ server
              (λ k s. two_tests (role_beq k.role platform) (outside_cidrs ip a) _ _)
              (resolve_key-Resolution sha256 _ m _ r a))
      ]
