-- ===== src/Auth/RateLimiter/Window.antt =====
-- src/auth.rs: when the limiter locks an address out, and for how long.
use rustspell_server.Base.{
  ℕ, ◌+◌, ◌-◌, ◌^◌, ◌≤◌, ◌<◌, ◌≡◌, refl, ◌⊎◌, Bool, true, none, some, List, [], ◌∷◌, ◌++◌, arith,
  length, retain, length-append, All, All-append, ltb, if◌then◌else◌,
}
use rustspell_server.Auth.RateLimiter.{
  FailureWindow, clear, wait, check_window, new_window, add_failure,
}

length-retain-append :
    (p : ℕ → Bool) (xs ys : List ℕ)
    → length (retain p (xs ++ ys)) ≡ length (retain p xs) + length (retain p ys)
length-retain-append p [] ys = omega arith
length-retain-append p (x ∷ xs) ys = ground (arith, length-retain-append p xs ys)

length-retain-retain :
    (p q : ℕ → Bool) (xs : List ℕ) → length (retain p (retain q xs)) ≤ length (retain p xs)
length-retain-retain p q [] = omega arith
length-retain-retain p q (x ∷ xs) = ground (arith, length-retain-retain p q xs)

length-retain-true : (xs : List ℕ) → length (retain (λ _. true) xs) ≡ length xs
length-retain-true [] = refl
length-retain-true (x ∷ xs) = omega (arith, length-retain-true xs)

module _ (max_failures window cooldown : ℕ) where
  -- The window of an address after its failures, the latest first, from the window `w`.
  unfoldable pub replay : FailureWindow → List ℕ → FailureWindow
  replay w [] = w
  replay w (t ∷ h) = add_failure max_failures window cooldown t (replay w h)

  -- The failures of a history that lie in the window before `now`.
  abbrev pub recent : ℕ → List ℕ → List ℕ
  recent now h = retain (λ t. ltb (now - t) window) h

  -- The history has a failure that starts the cooldown `until`, with `max_failures` failures in the
  -- window that ends there.
  abbrev pub Deserved : ℕ → List ℕ → Type 0
  Deserved until [] = ⊥
  Deserved until (t ∷ h) =
      ((until ≡ t + cooldown) × (max_failures ≤ length (recent t h) + 1)) ⊎ Deserved until h

  kept :
      (p : ℕ → Bool) (h : List ℕ)
      → length (retain p (replay new_window h).failures) ≤ length (retain p h)
  unfolding replay add_failure
  kept p [] = omega arith
  kept p (t ∷ h) =
      let fs = (replay new_window h).failures in
      ground (
        arith,
        length-retain-append p (recent t fs) (t ∷ []),
        length-retain-retain p (λ u. ltb (t - u) window) fs,
        kept p h,
      )

  -- Starting from a new window, a cooldown ends a fixed time after a failure that was at least the `max_failures`-th of the history within the
  -- window before it.
  pub replay-Deserved :
      (h : List ℕ) (until : ℕ)
      → (replay new_window h).cooldown_until ≡ some until
      → Deserved until h
  unfolding replay add_failure
  replay-Deserved [] until e = cc
  replay-Deserved (t ∷ h) until e =
      let fs = (replay new_window h).failures in
      ground (
        arith,
        length-retain-append (λ _. true) (recent t fs) (t ∷ []),
        length-retain-true (recent t fs),
        length-retain-true (recent t fs ++ (t ∷ [])),
        kept (λ u. ltb (t - u) window) h,
        replay-Deserved h until,
      )

  -- A burst: all its failures lie in one window.
  abbrev pub Burst : ℕ → List ℕ → Type 0
  Burst a h = All (λ t. (a ≤ t) × (t < a + window)) h

  recent-Burst : (a t : ℕ) (h : List ℕ) → a ≤ t → t < a + window → Burst a h → recent t h ≡ h
  recent-Burst a t [] lo hi b = refl
  recent-Burst a t (u ∷ h) lo hi b = ground (arith, recent-Burst a t h lo hi b.1)

  -- Fewer than `max_failures` failures in one window are all kept, and lock nobody out.
  pub short-Burst :
      (a : ℕ) (h : List ℕ)
      → Burst a h
      → length h < max_failures
      → max_failures < 2 ^ 32
      → Burst a (replay new_window h).failures
        × (length (replay new_window h).failures ≡ length h)
        × ((replay new_window h).cooldown_until ≡ none)
  unfolding replay add_failure
  short-Burst a [] b s m = (tt, refl, refl)
  short-Burst a (t ∷ h) b s m =
      let (k, n, c) = short-Burst a h b.1 (omega (arith, s)) m in
      let fs = (replay new_window h).failures in
      rw (recent-Burst a t fs b.0.0 b.0.1 k) ground (
        arith,
        length-append fs (t ∷ []),
        All-append (λ t. (a ≤ t) × (t < a + window)) fs (t ∷ []) k (b.0, tt),
      )

  -- From a new window, the failure that completes a burst of exactly `max_failures`, all within one
  -- window, locks the address out until the cooldown has passed and no longer, where `max_failures`
  -- is below 2^32.
  pub Burst-lockout :
      (a t : ℕ) (h : List ℕ) (now : ℕ)
      → Burst a (t ∷ h)
      → length (t ∷ h) ≡ max_failures
      → max_failures < 2 ^ 32
      → check_window (some (replay new_window (t ∷ h))) now
        ≡ (if ltb now (t + cooldown) then wait ((t + cooldown) - now) else clear)
  unfolding replay add_failure check_window
  Burst-lockout a t h now b s m =
      let (k, n, c) = short-Burst a h b.1 (omega (arith, s)) m in
      let fs = (replay new_window h).failures in
      rw (recent-Burst a t fs b.0.0 b.0.1 k) ground (arith, length-append fs (t ∷ []))
