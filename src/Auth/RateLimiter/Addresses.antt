-- ===== src/Auth/RateLimiter/Addresses.antt =====
-- src/auth.rs: each address has a window of its own, that of its own failures.
use rustspell_server.Base.{
  ℕ, ◌+◌, ◌-◌, ◌≡◌, refl, sym, ap, ◌∙◌, inl, inr, Option, none, some, List, [], ◌∷◌, arith, ltb,
  if◌then◌else◌, Eq, ◌==◌, ◌≢◌, ==-of_ne, Bool-cases, Option-cases,
}
use rustspell_server.Base.Dict.{lookup, lookup-insert}
use rustspell_server.Auth.RateLimiter.{
  FailureWindow, RateLimiter, clear, wait, new_window, add_failure, or_new, check_window, check,
  record_failure,
}
use rustspell_server.Auth.RateLimiter.Window.{replay, Deserved, replay-Deserved}

until-wait :
    (until now left : ℕ)
    → (if ltb now until then wait (until - now) else clear) ≡ wait left
    → until ≡ now + left
until-wait until now left h = ground arith

told :
    (o : Option FailureWindow) (now left : ℕ)
    → check_window o now ≡ wait left
    → (or_new o).cooldown_until ≡ some (now + left)
unfolding check_window
told none now left h = absurd (cc)
told (some w) now left h = elim (Option-cases w.cooldown_until) [
  | inl e ↦ absurd (cc (rw (e, check_window) at h))
  | inr (until, e) ↦ e ∙ ap (λ u. some u) (until-wait until now left (rw (e, check_window) at h))
]

module _ {Ip : Type 0} ⦃e : Eq Ip⦄ where
  lookup-record_failure :
      (ip other : Ip) (now : ℕ) (r : RateLimiter Ip)
      → lookup other (record_failure ip now r).state ≡ (
          if ip == other
          then some
              (add_failure r.max_failures r.window r.cooldown now (or_new (lookup ip r.state)))
          else lookup other r.state)
  unfolding record_failure
  lookup-record_failure ip other now r = lookup-insert ip other _ r.state

  -- A failure of one address does not change what another address is told, at any time.
  pub check-record_failure_ne :
      (ip other : Ip) (now later : ℕ) (r : RateLimiter Ip)
      → ip ≢ other
      → check other later (record_failure ip now r) ≡ check other later r
  unfolding check
  check-record_failure_ne ip other now later r n =
      ap (λ w. check_window w later)
        (rw (lookup-record_failure ip other now r, ==-of_ne ip other n) refl)

  -- The limiter after the failures of a history, the latest first: each is an address and a time.
  unfoldable pub record_failures : List (Ip × ℕ) → RateLimiter Ip → RateLimiter Ip
  record_failures [] r = r
  record_failures ((ip, now) ∷ h) r = record_failure ip now (record_failures h r)

  -- The times of the failures of one address.
  abbrev pub own : Ip → List (Ip × ℕ) → List ℕ
  own ip [] = []
  own ip ((other, now) ∷ h) = if other == ip then now ∷ own ip h else own ip h

  module _ (max_failures window cooldown : ℕ) where
    abbrev pub new_limiter : RateLimiter Ip
    new_limiter = record {
      state = [];
      max_failures = max_failures;
      window = window;
      cooldown = cooldown;
    }

    -- The limits stay.
    record IsReplay (h : List (Ip × ℕ)) (r : RateLimiter Ip) : Type 0 where
      same_max : r.max_failures ≡ max_failures
      same_window : r.window ≡ window
      same_cooldown : r.cooldown ≡ cooldown
      windows :
          (ip : Ip)
          → or_new (lookup ip r.state) ≡ replay max_failures window cooldown new_window (own ip h)

    step-windows :
        (other ip : Ip) (now : ℕ) (h : List (Ip × ℕ)) (r : RateLimiter Ip)
        → IsReplay h r
        → or_new (lookup ip (record_failure other now r).state)
          ≡ replay max_failures window cooldown new_window (own ip ((other, now) ∷ h))
    unfolding replay
    step-windows other ip now h r v = elim (Bool-cases (other == ip)) [
      | inl same ↦
          rw
            (
              lookup-record_failure other ip now r,
              same,
              (e.test_iff other ip).0 same,
              v.same_max,
              v.same_window,
              v.same_cooldown,
              v.windows ip,
            )
            refl
      | inr apart ↦ rw (lookup-record_failure other ip now r, apart) (v.windows ip)
    ]

    record_failures-IsReplay : (h : List (Ip × ℕ)) → IsReplay h (record_failures h new_limiter)
    unfolding record_failures record_failure replay lookup
    record_failures-IsReplay [] = record {
      same_max = refl;
      same_window = refl;
      same_cooldown = refl;
      windows = λ ip. refl;
    }
    record_failures-IsReplay ((other, now) ∷ h) =
        let v = record_failures-IsReplay h in
        record {
          same_max = v.same_max;
          same_window = v.same_window;
          same_cooldown = v.same_cooldown;
          windows = λ ip. step-windows other ip now h _ v;
        }

    -- No address is locked out but by its own failures: where a limiter that began with no failures
    -- tells an address to wait, after any history of failures of any addresses, the wait ends a fixed
    -- time after a failure of that same address that was at least the `max_failures`-th of its own
    -- within the window before it.
    pub check-Deserved :
        (h : List (Ip × ℕ)) (ip : Ip) (now left : ℕ)
        → check ip now (record_failures h new_limiter) ≡ wait left
        → Deserved max_failures window cooldown (now + left) (own ip h)
    unfolding check
    check-Deserved h ip now left waits =
        let v = record_failures-IsReplay h in
        replay-Deserved max_failures window cooldown (own ip h) (now + left) (
          sym (ap (λ w. w.cooldown_until) (v.windows ip))
          ∙ told (lookup ip (record_failures h new_limiter).state) now left waits)
