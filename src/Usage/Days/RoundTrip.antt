-- ===== src/Usage/Days/RoundTrip.antt =====
-- src/usage.rs: a day that is printed is read back.
use Prim.Native.Char.{Char}
use Prim.Native.String.{◌∷◌}
use rustspell_server.Base.{ℕ, ◌+◌, ◌-◌, ◌*◌, ◌/◌, ◌%◌, ◌≤◌, ◌<◌, ◌≡◌, refl, ap, ◌∙◌, arith, some}
use rustspell_server.Base.Int.{ℤ, pos, ◌+ℤ◌, ◌≤ℤ◌, pos_part, neg_part, eq-pos_part, int_laws}
use rustspell_server.Base.Text.{char_count}
use rustspell_server.Usage.Days.{
  epoch_offset, days_per_era, year_of_era, day_of_year, shifted_month, month_of, ◌>>=◌,
  format_civil, format_day, parse_day, checked_civil, take_chars, drop_chars, parse_i64,
  days_in_month, days_from_civil,
}
use rustspell_server.Usage.Days.Calendar.{
  civil_of, day_of_year-le, civil_from_days-pos, days_from_civil-pos, month_of_range,
  day_of_month_range, day-le-days_in_month,
}
use rustspell_server.Usage.Days.Digits.{padded-two, padded-four, parse_i64-two, parse_i64-four}

-- The days of the years 0 to 9999 from 0000-03-01 on.
abbrev pub IsFourDigit : ℤ → Type 0
IsFourDigit d = (pos 0 ≤ℤ d +ℤ pos epoch_offset) × (d ≤ℤ pos 2932896)

abbrev pub day_index : ℤ → ℕ
day_index d = pos_part (d +ℤ pos epoch_offset)

pub day_index_lem :
    (d : ℤ) → IsFourDigit d → (d +ℤ pos epoch_offset ≡ pos (day_index d)) × (day_index d ≤ 3652364)
day_index_lem d h = (eq, omega (int_laws, ap neg_part eq))
  where
    eq : d +ℤ pos epoch_offset ≡ pos (day_index d)
    eq = eq-pos_part _ h.0

pub civil_year : (z : ℕ) → z ≤ 3652364 → pos_part (civil_of z).year ≤ 9999
unfolding year_of_era day_of_year shifted_month month_of
civil_year z h = ground arith

parse_day-ten :
    (a b c e f g i j : Char)
    → parse_day (a ∷ b ∷ c ∷ e ∷ "-" ∷ f ∷ g ∷ "-" ∷ i ∷ j ∷ "") ≡ (
        parse_i64 (a ∷ b ∷ c ∷ e ∷ "") >>= λ year. parse_i64 (f ∷ g ∷ "") >>= λ month.
        parse_i64 (i ∷ j ∷ "") >>= λ day. checked_civil year month day)
unfolding parse_day char_count take_chars drop_chars
parse_day-ten a b c e f g i j = refl

two_digits : (n : ℕ) → n < 100 → n / 10 % 10 * 10 + n % 10 ≡ n
two_digits n h = omega arith

four_digits :
    (n : ℕ)
    → n ≤ 9999
    → ((n / 10 / 10 / 10 % 10 * 10 + n / 10 / 10 % 10) * 10 + n / 10 % 10) * 10 + n % 10 ≡ n
four_digits n h = omega arith

parse-format_civil :
    (y m d : ℕ)
    → y ≤ 9999
    → m < 100
    → d < 100
    → parse_day (format_civil (record { year = pos y; month = m; day = d }))
      ≡ checked_civil (pos y) (pos m) (pos d)
unfolding format_civil
parse-format_civil y m d h k l =
    rw
      (
        padded-two d "" l,
        padded-two m _ k,
        padded-four y _ (omega arith),
        parse_day-ten,
        parse_i64-four (y / 10 / 10 / 10 % 10) (y / 10 / 10 % 10) (y / 10 % 10) (y % 10)
            (omega arith) (omega arith) (omega arith) (omega arith),
        parse_i64-two (m / 10 % 10) (m % 10) (omega arith) (omega arith),
        parse_i64-two (d / 10 % 10) (d % 10) (omega arith) (omega arith),
        four_digits y h,
        two_digits m k,
        two_digits d l,
      )
      refl

-- A date whose fields are in range is accepted.
checked_civil-some :
    (y m d : ℕ)
    → 1 ≤ m
    → m ≤ 12
    → 1 ≤ d
    → d ≤ 31
    → d ≤ days_in_month (pos y) m
    → checked_civil (pos y) (pos m) (pos d)
      ≡ some (days_from_civil (record { year = pos y; month = m; day = d }))
checked_civil-some y m d h k l n o = ground arith

parse-civil_of :
    (z : ℕ)
    → z ≤ 3652364
    → parse_day (format_civil (civil_of z)) ≡ some (days_from_civil (civil_of z))
parse-civil_of z h =
    let doy = day_of_year-le doe fits in
    let month = month_of_range _ doy in
    let day = day_of_month_range _ doy in
    parse-format_civil _ _ _ (civil_year z h) (omega arith) (omega arith)
    ∙ checked_civil-some _ _ _ month.0 month.1 day.0 day.1 (day-le-days_in_month z)
  where
    doe : ℕ
    doe = z - z / days_per_era * days_per_era

    fits : doe < days_per_era
    fits = omega arith

-- A day of the years 0 to 9999, from 0000-03-01 on, that is printed is read back as that day.
pub parse_day-format_day : (d : ℤ) → IsFourDigit d → parse_day (format_day d) ≡ some d
unfolding format_day
parse_day-format_day d h =
    let index = day_index_lem d h in
    rw
      (
        civil_from_days-pos d (day_index d) index.0,
        parse-civil_of (day_index d) index.1,
        days_from_civil-pos d (day_index d) index.0,
      )
      refl
