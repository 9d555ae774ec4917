-- ===== src/Examples/Auth.antt =====
-- src/auth.rs, src/config.rs, src/usage.rs and src/error.rs at concrete inputs.
use rustspell_server.Base.{
  ℕ, ◌+◌, ◌-◌, String, ◌≡◌, ◌≢◌, ◌↔◌, refl, true, string_eq, Option, none, some, List, [], ◌∷◌,
  ◌==◌, arith, ltb, if◌then◌else◌,
}
use rustspell_server.Config.Cidr.{IpAddr, v4, Cidr, canonical_ip, masked, mask_ip, contains}
use rustspell_server.Config.Cidr.Masks.{IsAddress, SamePrefix, contains_iff}
use rustspell_server.Auth.RateLimiter.{
  RateLimiter, clear, wait, check_window, new_window, add_failure, check, record_failure,
}
use rustspell_server.Auth.RateLimiter.Window.{replay, Deserved, Burst-lockout}
use rustspell_server.Auth.RateLimiter.Addresses.{record_failures, new_limiter, check-Deserved}
use rustspell_server.Auth.Gates.{text_of}
use rustspell_server.Base.Dict.{lookup, insert}
use rustspell_server.Auth.ClientIp.{trusted, resolved_client_ip}
use rustspell_server.Auth.ClientIp.Forwarded.{appended}
use rustspell_server.Auth.Request.{ip_eq}

-- Three failures of one address lock it out for 50, where the window is 10; another's do not count.
abbrev history : List (IpAddr × ℕ)
history = (v4 1, 12) ∷ (v4 2, 11) ∷ (v4 1, 11) ∷ (v4 1, 10) ∷ []

waits : check (v4 1) 20 (record_failures history (new_limiter 3 10 50)) ≡ wait 42
unfolding check check_window record_failures record_failure add_failure lookup insert
waits = refl

other_clear : check (v4 2) 20 (record_failures history (new_limiter 3 10 50)) ≡ clear
unfolding check check_window record_failures record_failure add_failure lookup insert
other_clear = refl

check-Deserved_example : Deserved 3 10 50 62 (12 ∷ 11 ∷ 10 ∷ [])
check-Deserved_example = check-Deserved 3 10 50 history (v4 1) 20 42 waits

Burst-lockout_example :
    check_window (some (replay 3 10 50 new_window (12 ∷ 11 ∷ 10 ∷ []))) 20
    ≡ (if ltb 20 (12 + 50) then wait ((12 + 50) - 20) else clear)
Burst-lockout_example =
    Burst-lockout 3 10 50 10 12 (11 ∷ 10 ∷ []) 20
      ((omega arith, omega arith), ((omega arith, omega arith), ((omega arith, omega arith), tt)))
      refl (omega arith)

abbrev limiter : RateLimiter IpAddr
limiter = record { state = []; max_failures = 1; window = 10; cooldown = 50 }

different : ◌≢◌ {A = IpAddr} (v4 1) (v4 2)
different e = cc

in_range : IsAddress (canonical_ip (v4 167772165))
unfolding canonical_ip
in_range = omega arith

-- 10.0.0.5 against 10.0.0.0/8.
contains_iff_example :
    (contains (record { network = mask_ip (v4 167772160) 8; prefix = 8 }) (v4 167772165) ≡ true)
    ↔ SamePrefix 8 (canonical_ip (v4 167772165)) (v4 167772160)
contains_iff_example =
    contains_iff 8 (v4 167772160) (v4 167772165) (omega arith) in_range (omega arith)

-- A parser that knows two addresses.
abbrev parse_two : String → Option IpAddr
parse_two s =
    if s == "203.0.113.9"
    then some (v4 3405803785)
    else if s == "10.0.0.1"
    then some (v4 167772161)
    else none

abbrev proxies : List Cidr
proxies = record { network = v4 167772160; prefix = 8 } ∷ []

trusted_peer : trusted proxies (v4 167772161) ≡ true
unfolding contains canonical_ip mask_ip masked
trusted_peer = refl

-- The client sent a byte that is no visible ASCII.
undecoded :
    resolved_client_ip parse_two
      (v4 167772161)
      proxies
      (text_of (some (appended none "," " 203.0.113.9")))
    ≡ v4 167772161
unfolding resolved_client_ip
undecoded = rw trusted_peer refl
