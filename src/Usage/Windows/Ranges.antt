-- ===== src/Usage/Windows/Ranges.antt =====
-- src/usage.rs and src/store.rs: the days that a query for a resolved window reads.
use mathlib.Core.Option.{some-injective}
use rustspell_server.Base.{
  ℕ, String, ◌≡◌, refl, sym, ◌∙◌, ◌↔◌, inl, inr, Bool, true, false, ◌&&◌, Option, none, some, arith,
  Option-cases,
}
use rustspell_server.Base.Int.{ℤ, pos, ◌+ℤ◌, ◌-ℤ◌, ◌≤ℤ◌, leb_ℤ, int_laws}
use rustspell_server.Error.{AppError, ok, err, problem_slug, status_code}
use rustspell_server.Usage.Days.{parse_day, format_day}
use rustspell_server.Usage.Days.RoundTrip.{IsFourDigit}
use rustspell_server.Usage.Days.Order.{text_leb-format_day}
use rustspell_server.Usage.Rollup.{text_leb, in_range}
use rustspell_server.Usage.Windows.{
  retention_days, UsageQuery, Window, epoch_day_now, window, checked_window, resolve,
  supplied_window, resolve_window, retention_cutoff_day,
}

abbrev pub both : String → String → UsageQuery
both start end = record { start = some start; end = some end }

-- The two texts name days in order, fewer than 90 days apart, and the window is from the one to the other.
abbrev pub IsWindowOf : String → String → Window → Type 0
IsWindowOf start end w =
    (a : ℤ) × (b : ℤ) × (parse_day start ≡ some a)
    × (parse_day end ≡ some b)
    × (a ≤ℤ b)
    × (b -ℤ a ≤ℤ pos 89)
    × (w ≡ window a b true)

checked_window_iff :
    (a b : ℤ) (w : Window)
    → (checked_window a b ≡ ok w) ↔ ((a ≤ℤ b) × (b -ℤ a ≤ℤ pos 89) × (window a b true ≡ w))
unfolding checked_window
checked_window_iff a b w = ground arith

supplied-IsWindowOf :
    (start end : String) (w : Window) → supplied_window start end ≡ ok w → IsWindowOf start end w
unfolding supplied_window
supplied-IsWindowOf start end w h = elim (Option-cases (parse_day start)) [
  | inl no_start ↦ absurd (ground (arith, h, no_start))
  | inr (a, ea) ↦ elim (Option-cases (parse_day end)) [
    | inl no_end ↦ absurd (ground (arith, h, ea, no_end))
    | inr (b, eb) ↦
        (let fits = (checked_window_iff a b w).0 (rw (ea, eb) at h) in
          (a, b, ea, eb, fits.0, fits.1, sym fits.2))
  ]
]

IsWindowOf-supplied :
    (start end : String) (w : Window) → IsWindowOf start end w → supplied_window start end ≡ ok w
unfolding supplied_window
IsWindowOf-supplied start end w (a, b, ea, eb, ordered, near, e) =
    rw (ea, eb) ((checked_window_iff a b w).1 (ordered, near, sym e))

-- A range is accepted exactly if its two texts name days in order, fewer than 90 days apart.
pub resolve_window_iff :
    (now : ℕ) (start end : String) (period : Option (ℕ × ℕ)) (w : Window)
    → (resolve_window now (both start end) period ≡ ok w) ↔ IsWindowOf start end w
unfolding resolve_window
resolve_window_iff now start end period w =
    (supplied-IsWindowOf start end w, IsWindowOf-supplied start end w)

abbrev pub IsInvalidRange : AppError → Type 0
IsInvalidRange e = (problem_slug e ≡ "invalid-date-range") × (status_code e ≡ 400)

checked_window_error : (a b : ℤ) (e : AppError) → checked_window a b ≡ err e → IsInvalidRange e
unfolding checked_window problem_slug status_code
checked_window_error a b e h = ground arith

supplied_window_error :
    (start end : String) (e : AppError) → supplied_window start end ≡ err e → IsInvalidRange e
unfolding supplied_window problem_slug status_code
supplied_window_error start end e h = elim (Option-cases (parse_day start)) [
  | inl no_start ↦ ground (arith, h, no_start)
  | inr (a, ea) ↦ elim (Option-cases (parse_day end)) [
    | inl no_end ↦ ground (arith, h, ea, no_end)
    | inr (b, eb) ↦ checked_window_error a b e (rw (ea, eb) at h)
  ]
]

resolve_error :
    (today : ℤ) (start end : Option String) (period : Option (ℕ × ℕ)) (e : AppError)
    → resolve today start end period ≡ err e
    → IsInvalidRange e
unfolding problem_slug status_code
resolve_error today none none period e h = absurd (cc)
resolve_error today none (some t) period e h = ground arith
resolve_error today (some s) none period e h = ground arith
resolve_error today (some s) (some t) period e h = supplied_window_error s t e h

-- A query that is refused is answered as an invalid range.
pub resolve_window_error :
    (now : ℕ) (query : UsageQuery) (period : Option (ℕ × ℕ)) (e : AppError)
    → resolve_window now query period ≡ err e
    → IsInvalidRange e
unfolding resolve_window
resolve_window_error now query period e h = resolve_error _ query.start query.end period e h

in_range-window :
    (a b d : ℤ) (dated : Bool)
    → IsFourDigit a
    → IsFourDigit b
    → IsFourDigit d
    → in_range (window a b dated).start (window a b dated).end (format_day d)
      ≡ (leb_ℤ a d && leb_ℤ d b)
in_range-window a b d dated ha hb hd =
    rw (text_leb-format_day a d ha hd, text_leb-format_day d b hd hb) refl

window_of_days :
    (now : ℕ) (start end : String) (period : Option (ℕ × ℕ)) (w : Window) (a b : ℤ)
    → resolve_window now (both start end) period ≡ ok w
    → parse_day start ≡ some a
    → parse_day end ≡ some b
    → w ≡ window a b true
window_of_days now start end period w a b h ea eb =
    let (c, d, ec, ed, ordered, near, e) = (resolve_window_iff now start end period w).0 h in
    rw (some-injective a c (sym ea ∙ ec), some-injective b d (sym eb ∙ ed)) e

-- The rows that the query for an accepted range reads are those of the days from its first to its last.
pub resolve_window-in_range :
    (now : ℕ) (start end : String) (period : Option (ℕ × ℕ)) (w : Window) (a b d : ℤ)
    → resolve_window now (both start end) period ≡ ok w
    → parse_day start ≡ some a
    → parse_day end ≡ some b
    → IsFourDigit a
    → IsFourDigit b
    → IsFourDigit d
    → in_range w.start w.end (format_day d) ≡ (leb_ℤ a d && leb_ℤ d b)
resolve_window-in_range now start end period w a b d h ea eb ha hb hd =
    rw (window_of_days now start end period w a b h ea eb) (in_range-window a b d true ha hb hd)

thirty_days : (today : ℤ) → today -ℤ pos 30 +ℤ pos 1 ≡ today -ℤ pos 29
thirty_days today = omega int_laws

-- Without a range and a billing period the query reads the thirty days that end today.
pub resolve_window-default :
    (now : ℕ) (d : ℤ) (w : Window)
    → resolve_window now (record { start = none; end = none }) none ≡ ok w
    → IsFourDigit (epoch_day_now now -ℤ pos 29)
    → IsFourDigit (epoch_day_now now)
    → IsFourDigit d
    → in_range w.start w.end (format_day d)
      ≡ (leb_ℤ (epoch_day_now now -ℤ pos 29) d && leb_ℤ d (epoch_day_now now))
unfolding resolve_window
resolve_window-default now d w h low high hd =
    let w_eq : window (epoch_day_now now -ℤ pos 29) (epoch_day_now now) false ≡ w =
      cc (h, thirty_days (epoch_day_now now)) in
    rw (← w_eq) (in_range-window _ _ d false low high hd)

-- The purge keeps the days that are at most 90 days before today.
pub retention_cutoff_day-text_leb :
    (now : ℕ) (d : ℤ)
    → IsFourDigit (epoch_day_now now -ℤ pos retention_days)
    → IsFourDigit d
    → text_leb (retention_cutoff_day now) (format_day d)
      ≡ leb_ℤ (epoch_day_now now -ℤ pos retention_days) d
unfolding retention_cutoff_day
retention_cutoff_day-text_leb now d h k = text_leb-format_day _ d h k
