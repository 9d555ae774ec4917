-- ===== src/Auth/RateLimiter.antt =====
-- src/auth.rs: `RateLimiter`, a sliding window of failures for each address. Times are the readings
-- of one monotonic clock, in nanoseconds.
pub mod Window
pub mod Addresses
use rustspell_server.Base.{
  ℕ, ◌+◌, ◌-◌, ◌/◌, ◌^◌, ◌%◌, max, ◌≡◌, Bool, true, false, Option, none, some, List, [], ◌∷◌, ◌++◌,
  length, retain, ltb, leb, if◌then◌else◌, Eq,
}
use rustspell_server.Base.Dict.{Dict, lookup, insert}

pub record FailureWindow : Type 0 where
  pub failures : List ℕ
  pub cooldown_until : Option ℕ

-- The limits, and the windows by address.
pub record RateLimiter (Ip : Type 0) : Type 0 where
  pub state : Dict Ip FailureWindow
  pub max_failures : ℕ
  pub window : ℕ
  pub cooldown : ℕ

-- What `check` returns.
pub data Verdict : Type 0 where
  clear : Verdict
  wait : ℕ → Verdict

unfoldable pub check_window : Option FailureWindow → ℕ → Verdict
check_window none now = clear
check_window (some w) now = elim w.cooldown_until [
  | none ↦ clear
  | some until ↦ if ltb now until then wait (until - now) else clear
]

abbrev pub new_window : FailureWindow
new_window = record { failures = []; cooldown_until = none }

abbrev pub or_new : Option FailureWindow → FailureWindow
or_new none = new_window
or_new (some w) = w

-- The length is cast to `u32` before the test.
unfoldable pub add_failure : ℕ → ℕ → ℕ → ℕ → FailureWindow → FailureWindow
add_failure max_failures window cooldown now w =
    let failures = retain (λ t. ltb (now - t) window) w.failures ++ (now ∷ []) in
    if leb max_failures (length failures % 2 ^ 32)
    then record { failures = []; cooldown_until = some (now + cooldown) }
    else record w { failures = failures }

module _ {Ip : Type 0} ⦃e : Eq Ip⦄ where
  unfoldable pub check : Ip → ℕ → RateLimiter Ip → Verdict
  check ip now r = check_window (lookup ip r.state) now

  unfoldable pub record_failure : Ip → ℕ → RateLimiter Ip → RateLimiter Ip
  record_failure ip now r = record r {
    state =
        insert ip (add_failure r.max_failures r.window r.cooldown now (or_new (lookup ip r.state)))
          r.state;
  }
