-- ===== src/Usage/Days.antt =====
-- src/usage.rs: days as numbers since 1970-01-01 and as texts `YYYY-MM-DD`, in the proleptic
-- Gregorian calendar. No sum here comes near the bounds of an `i64`.
pub mod Calendar
pub mod Digits
pub mod RoundTrip
pub mod Order
use Prim.Native.Char.{Char, code}
use Prim.Native.String.{◌∷◌}
use rustspell_server.Base.{
  ℕ, zero, suc, ◌+◌, ◌-◌, ◌*◌, ◌/◌, ◌%◌, ◌^◌, String, Bool, true, false, not, ◌&&◌, ◌||◌, Option,
  none, some, ltb, leb, eqb, if◌then◌else◌,
}
use rustspell_server.Base.Int.{
  ℤ, pos, negsuc, nonneg, pos_part, neg_part, ◌+ℤ◌, ◌-ℤ◌, times, quot, rem, leb_ℤ,
}
use rustspell_server.Base.Text.{char_count, parse_uint}

infixl 5 ◌>>=◌
abbrev pub ◌>>=◌ {ℓ κ} : {A : Type ℓ} {B : Type κ} → Option A → (A → Option B) → Option B
none >>= f = none
some a >>= f = f a

-- The day numbers count from 0000-03-01.
abbrev pub epoch_offset : ℕ
epoch_offset = 719468

abbrev pub days_per_era : ℕ
days_per_era = 146097

-- `year` is i64, `month` and `day` are positive.
pub record Civil : Type 0 where
  pub year : ℤ
  pub month : ℕ
  pub day : ℕ

-- A quotient rounded down, as the source writes it.
unfoldable pub era_of : ℤ → ℕ → ℤ
era_of z n = quot (if nonneg z then z else z -ℤ pos (n - 1)) n

unfoldable pub year_of_era : ℕ → ℕ
year_of_era doe = (doe - doe / 1460 + doe / 36524 - doe / 146096) / 365

unfoldable pub day_of_year : ℕ → ℕ
day_of_year doe = doe - (365 * year_of_era doe + year_of_era doe / 4 - year_of_era doe / 100)

-- The months count from March.
unfoldable pub shifted_month : ℕ → ℕ
shifted_month doy = (5 * doy + 2) / 153

unfoldable pub day_of_month : ℕ → ℕ
day_of_month doy = doy - (153 * shifted_month doy + 2) / 5 + 1

unfoldable pub month_of : ℕ → ℕ
month_of mp = if ltb mp 10 then mp + 3 else mp - 9

-- `i64::from(b)`
abbrev pub from_bool : Bool → ℕ
from_bool true = 1
from_bool false = 0

-- `doe` and what follows from it are never negative.
unfoldable pub civil_from_days : ℤ → Civil
civil_from_days epoch_day =
    let z = epoch_day +ℤ pos epoch_offset in
    let era = era_of z days_per_era in
    let doe = pos_part (z -ℤ times era days_per_era) in
    let m = month_of (shifted_month (day_of_year doe)) in
    record {
      year = pos (year_of_era doe) +ℤ times era 400 +ℤ pos (from_bool (leb m 2));
      month = m;
      day = day_of_month (day_of_year doe);
    }

unfoldable pub nth_char : ℕ → String → Char
nth_char n String.[] = "?"
nth_char zero (c ∷ s) = c
nth_char (suc n) (c ∷ s) = nth_char n s

-- The digit of a number below ten.
unfoldable pub digit : ℕ → Char
digit n = nth_char n "0123456789"

-- The decimal digits of `n`, at least `width` of them, before `rest`. An `i64` has at most 19.
unfoldable pub padded_from : ℕ → ℕ → ℕ → String → String
padded_from zero width n rest = rest
padded_from (suc fuel) width n rest =
    let more = padded_from fuel (width - 1) (n / 10) (digit (n % 10) ∷ rest) in
    if eqb n 0 && eqb width 0 then rest else more

-- `{:02}` of a number that is not negative, before `rest`.
abbrev pub padded : ℕ → ℕ → String → String
padded width n rest = padded_from 20 width n rest

-- `{:04}`: a sign counts in the width.
abbrev pub padded_year : ℤ → String → String
padded_year (pos n) rest = padded 4 n rest
padded_year (negsuc n) rest = "-" ∷ padded 3 (suc n) rest

unfoldable pub format_civil : Civil → String
format_civil c = padded_year c.year ("-" ∷ padded 2 c.month ("-" ∷ padded 2 c.day ""))

unfoldable pub format_day : ℤ → String
format_day epoch_day = format_civil (civil_from_days epoch_day)

abbrev pub is_multiple : ℤ → ℕ → Bool
is_multiple year n = eqb (pos_part (rem year n) + neg_part (rem year n)) 0

unfoldable pub is_leap : ℤ → Bool
is_leap year = (is_multiple year 4 && not (is_multiple year 100)) || is_multiple year 400

unfoldable pub days_in_month : ℤ → ℕ → ℕ
days_in_month year month =
    if eqb month 2
    then (if is_leap year then 29 else 28)
    else if eqb month 4 || eqb month 6 || eqb month 9 || eqb month 11
    then 30
    else if leb 1 month && leb month 12
    then 31
    else 0

-- The year begins in March here, and the months count from it.
unfoldable pub days_from_shifted : ℤ → ℕ → ℕ → ℤ
days_from_shifted y mp day =
    let era = era_of y 400 in
    let yoe = pos_part (y -ℤ times era 400) in
    let doy = (153 * mp + 2) / 5 + day - 1 in
    let doe = yoe * 365 + yoe / 4 - yoe / 100 + doy in
    times era days_per_era +ℤ pos doe -ℤ pos epoch_offset

unfoldable pub month_from_march : ℕ → ℕ
month_from_march month = if ltb 2 month then month - 3 else month + 9

unfoldable pub days_from_civil : Civil → ℤ
days_from_civil c =
    days_from_shifted (c.year -ℤ pos (from_bool (leb c.month 2))) (month_from_march c.month) c.day

unfoldable pub take_chars : ℕ → String → String
take_chars zero s = ""
take_chars (suc n) String.[] = ""
take_chars (suc n) (c ∷ s) = c ∷ take_chars n s

unfoldable pub drop_chars : ℕ → String → String
drop_chars zero s = s
drop_chars (suc n) String.[] = ""
drop_chars (suc n) (c ∷ s) = drop_chars n s

-- `s[from..to]`
abbrev pub slice : ℕ → ℕ → String → String
slice from to s = take_chars (to - from) (drop_chars from s)

abbrev pub is_dash : String → Bool
is_dash String.[] = false
is_dash (c ∷ s) = eqb (code c) 45

abbrev negated : Option ℕ → Option ℤ
negated none = none
negated (some n) = some (pos 0 -ℤ pos n)

abbrev positive : Option ℕ → Option ℤ
positive none = none
positive (some n) = some (pos n)

-- A second sign is refused.
abbrev unsigned : String → Option ℕ
unsigned String.[] = none
unsigned (c ∷ s) = if eqb (code c) 43 then none else parse_uint (2 ^ 63) (c ∷ s)

-- `parse` into an `i64`: a sign may come before the digits.
unfoldable pub parse_i64 : String → Option ℤ
parse_i64 String.[] = none
parse_i64 (c ∷ s) =
    if eqb (code c) 45 then negated (unsigned s) else positive (parse_uint (2 ^ 63 - 1) (c ∷ s))

abbrev pub checked_civil : ℤ → ℤ → ℤ → Option ℤ
checked_civil year month day =
    if not (leb_ℤ (pos 1) month && leb_ℤ month (pos 12))
      || not (leb_ℤ (pos 1) day && leb_ℤ day (pos 31))
    then none
    else if ltb (days_in_month year (pos_part month)) (pos_part day)
    then none
    else some (days_from_civil (record { year = year; month = pos_part month; day = pos_part day }))

-- Where the two dashes are in place every slice ends at a character's boundary, so characters stand
-- for bytes: another text than of ten ASCII characters is refused either way.
unfoldable pub parse_day : String → Option ℤ
parse_day s =
    if not (eqb (char_count s) 10 && is_dash (drop_chars 4 s) && is_dash (drop_chars 7 s))
    then none
    else do
      year ← parse_i64 (slice 0 4 s)
      month ← parse_i64 (slice 5 7 s)
      day ← parse_i64 (slice 8 10 s)
      checked_civil year month day
