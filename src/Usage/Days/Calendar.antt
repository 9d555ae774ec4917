-- ===== src/Usage/Days/Calendar.antt =====
-- src/usage.rs: the arithmetic of `format_day` and `parse_day`.
use rustspell_server.Base.{
  ℕ, ◌+◌, ◌-◌, ◌*◌, ◌/◌, ◌%◌, ◌≤◌, ◌<◌, ◌≡◌, ◌≢◌, ◌⊎◌, refl, arith, leb, true,
}
use rustspell_server.Base.Int.{
  ℤ, pos, ◌+ℤ◌, ◌-ℤ◌, pos_add, pos_sub, times-pos, quot-pos, rem-pos, pos_add-sub, pos_sub_of,
}
use rustspell_server.Usage.Days.{
  epoch_offset, days_per_era, Civil, era_of, year_of_era, day_of_year, shifted_month, day_of_month,
  month_of, from_bool, civil_from_days, days_from_civil, days_from_shifted, month_from_march,
  is_leap, days_in_month,
}

pub year_of_era-lt : (doe : ℕ) → doe < days_per_era → year_of_era doe < 400
unfolding year_of_era
year_of_era-lt doe h = omega arith

pub year_start :
    (doe : ℕ)
    → doe < days_per_era
    → 365 * year_of_era doe + year_of_era doe / 4 - year_of_era doe / 100 + day_of_year doe ≡ doe
unfolding year_of_era day_of_year
year_start doe h = omega arith

pub day_of_year-le : (doe : ℕ) → doe < days_per_era → day_of_year doe ≤ 365
unfolding year_of_era day_of_year
day_of_year-le doe h = omega arith

-- The day 365 is 29 February of a leap year.
day_of_year-leap :
    (doe : ℕ) → doe < days_per_era → day_of_year doe ≡ 365 → (year_of_era doe + 1) % 4 ≡ 0
unfolding year_of_era day_of_year
day_of_year-leap doe h e = omega arith

day_of_year-century :
    (doe : ℕ)
    → doe < days_per_era
    → day_of_year doe ≡ 365
    → (year_of_era doe + 1) % 100 ≡ 0
    → year_of_era doe ≡ 399
unfolding year_of_era day_of_year
day_of_year-century doe h e k = omega arith

-- The date of the `z`-th day after 0000-03-01.
abbrev pub civil_of : ℕ → Civil
civil_of z =
    let doe = z - z / days_per_era * days_per_era in
    let m = month_of (shifted_month (day_of_year doe)) in
    record {
      year = pos (year_of_era doe + z / days_per_era * 400 + from_bool (leb m 2));
      month = m;
      day = day_of_month (day_of_year doe);
    }

pub civil_from_days-pos :
    (d : ℤ) (z : ℕ) → d +ℤ pos epoch_offset ≡ pos z → civil_from_days d ≡ civil_of z
unfolding civil_from_days era_of
civil_from_days-pos d z e =
    rw
      (
        e,
        quot-pos z days_per_era,
        times-pos (z / days_per_era) days_per_era,
        times-pos (z / days_per_era) 400,
        pos_sub z (z / days_per_era * days_per_era) (omega arith),
        pos_add,
        pos_add,
      )
      refl

-- The days from 0000-03-01 to a date in a year that begins in March.
unfoldable pub day_number : ℕ → ℕ → ℕ → ℕ
day_number y mp day =
    let yoe = y - y / 400 * 400 in
    y / 400 * days_per_era + (yoe * 365 + yoe / 4 - yoe / 100 + ((153 * mp + 2) / 5 + day - 1))

pub days_from_shifted-pos :
    (y mp day : ℕ)
    → days_from_shifted (pos y) mp day ≡ pos (day_number y mp day) -ℤ pos epoch_offset
unfolding days_from_shifted era_of day_number
days_from_shifted-pos y mp day =
    rw
      (
        quot-pos y 400,
        times-pos (y / 400) 400,
        times-pos (y / 400) days_per_era,
        pos_sub y (y / 400 * 400) (omega arith),
        pos_add,
      )
      refl

pub month_range : (doy : ℕ) → doy ≤ 365 → shifted_month doy ≤ 11
unfolding shifted_month
month_range doy h = omega arith

month-month_from_march : (mp : ℕ) → mp ≤ 11 → month_from_march (month_of mp) ≡ mp
unfolding month_from_march month_of
month-month_from_march mp h = ground arith

day_number-split :
    (era yoe doy : ℕ)
    → yoe < 400
    → doy ≤ 365
    → day_number (yoe + era * 400) (shifted_month doy) (day_of_month doy)
      ≡ era * days_per_era + (365 * yoe + yoe / 4 - yoe / 100 + doy)
unfolding day_number shifted_month day_of_month
day_number-split era yoe doy h k = omega arith

pub days_from_civil-pos :
    (d : ℤ) (z : ℕ) → d +ℤ pos epoch_offset ≡ pos z → days_from_civil (civil_of z) ≡ d
unfolding days_from_civil
days_from_civil-pos d z e =
    rw
      (
        pos_add-sub,
        month-month_from_march _ (month_range _ (day_of_year-le doe fits)),
        days_from_shifted-pos,
        day_number-split (z / days_per_era) _ _ (year_of_era-lt doe fits) (day_of_year-le doe fits),
        year_start doe fits,
        whole,
      )
      (pos_sub_of d epoch_offset z e)
  where
    doe : ℕ
    doe = z - z / days_per_era * days_per_era

    fits : doe < days_per_era
    fits = omega arith

    whole : z / days_per_era * days_per_era + doe ≡ z
    whole = omega arith

is_leap-pos : (y : ℕ) → y % 4 ≡ 0 → y % 100 ≢ 0 ⊎ (y % 400 ≡ 0) → is_leap (pos y) ≡ true
unfolding is_leap
is_leap-pos y four h = rw (rem-pos y 4, rem-pos y 100, rem-pos y 400) (ground arith)

pub month_of_range :
    (doy : ℕ) → doy ≤ 365 → (1 ≤ month_of (shifted_month doy)) × (month_of (shifted_month doy) ≤ 12)
unfolding month_of shifted_month
month_of_range doy h = ground arith

pub day_of_month_range : (doy : ℕ) → doy ≤ 365 → (1 ≤ day_of_month doy) × (day_of_month doy ≤ 31)
unfolding day_of_month shifted_month
day_of_month_range doy h = ground arith

day_of_month-le :
    (year : ℤ) (doy : ℕ)
    → doy ≤ 365
    → (doy ≡ 365 → is_leap year ≡ true)
    → day_of_month doy ≤ days_in_month year (month_of (shifted_month doy))
unfolding day_of_month month_of shifted_month days_in_month
day_of_month-le year doy h leap = ground arith

-- The day before 1 March is the first of a month of 29 days exactly in a leap year.
leap_end :
    (doe era : ℕ)
    → doe < days_per_era
    → day_of_year doe ≡ 365
    → is_leap (
        pos (
          year_of_era doe
          + era * 400
          + from_bool (leb (month_of (shifted_month (day_of_year doe))) 2)))
      ≡ true
unfolding shifted_month month_of
leap_end doe era h e = rw e (
    is_leap-pos _ (omega (arith, day_of_year-leap doe h e))
      (ground (arith, day_of_year-century doe h e)))

pub day-le-days_in_month :
    (z : ℕ) → (civil_of z).day ≤ days_in_month (civil_of z).year (civil_of z).month
day-le-days_in_month z =
    day_of_month-le _ (day_of_year doe) (day_of_year-le doe fits)
      (leap_end doe (z / days_per_era) fits)
  where
    doe : ℕ
    doe = z - z / days_per_era * days_per_era

    fits : doe < days_per_era
    fits = omega arith
