-- ===== src/Usage/Days/Order.antt =====
-- src/usage.rs and src/store.rs: days are compared as texts.
use Prim.Native.Char.{Char}
use Prim.Native.String.{◌∷◌}
use rustspell_server.Base.{
  ℕ, ◌+◌, ◌-◌, ◌*◌, ◌/◌, ◌%◌, ◌≤◌, ◌<◌, String, ◌≡◌, refl, ap, ◌∙◌, arith, Bool-cases, ltb→lt, inl,
  inr, ltb, leb,
}
use rustspell_server.Base.Int.{ℤ, pos, leb_ℤ, pos_part, neg_part, +ℤ_parts}
use rustspell_server.Usage.Rollup.{text_leb}
use rustspell_server.Usage.Days.{
  epoch_offset, days_per_era, Civil, year_of_era, day_of_year, shifted_month, month_of, from_bool,
  format_civil, format_day, digit, padded, day_of_month,
}
use rustspell_server.Usage.Days.Calendar.{
  civil_of, day_of_year-le, year_of_era-lt, year_start, civil_from_days-pos, month_of_range,
  month_range, day_of_month_range,
}
use rustspell_server.Usage.Days.RoundTrip.{IsFourDigit, day_index, day_index_lem, civil_year}
use rustspell_server.Usage.Days.Digits.{code-digit, padded-two, padded-four}

digit_mono : (n m k : ℕ) → n < m → n * k + k ≤ m * k
digit_mono n m k h = grind arith

text_leb-digit :
    (n m k a b : ℕ) (s t : String)
    → n < 10
    → m < 10
    → a < k
    → b < k
    → text_leb s t ≡ leb a b
    → text_leb (digit n ∷ s) (digit m ∷ t) ≡ leb (n * k + a) (m * k + b)
unfolding text_leb
text_leb-digit n m k a b s t hn hm ha hb e =
    rw (code-digit n hn, code-digit m hm, e) (ground (arith, digit_mono n m k, digit_mono m n k))

text_leb-same : (c : Char) (s t : String) → text_leb (c ∷ s) (c ∷ t) ≡ text_leb s t
unfolding text_leb
text_leb-same c s t = ground arith

join_digits : (q r n k a : ℕ) → q * 10 + r ≡ n → q * (k * 10) + (r * k + a) ≡ n * k + a
join_digits q r n k a e = rw (← e) (grind arith)

low_digit : (r k a : ℕ) → r < 10 → a < k → r * k + a < k * 10
low_digit r k a h l = grind (arith, digit_mono r 10 k h)

text_leb-two :
    (n m k a b : ℕ) (s t : String)
    → n < 100
    → m < 100
    → a < k
    → b < k
    → text_leb s t ≡ leb a b
    → text_leb (padded 2 n s) (padded 2 m t) ≡ leb (n * k + a) (m * k + b)
text_leb-two n m k a b s t hn hm ha hb e =
    rw
      (
        padded-two n s hn,
        padded-two m t hm,
        text_leb-digit (n / 10 % 10) (m / 10 % 10) (k * 10) _ _ _ _ (omega arith) (omega arith)
            (low_digit (n % 10) k a (omega arith) ha) (low_digit (m % 10) k b (omega arith) hb)
            (text_leb-digit (n % 10) (m % 10) k a b s t (omega arith) (omega arith) ha hb e),
        join_digits (n / 10 % 10) (n % 10) n k a (omega arith),
        join_digits (m / 10 % 10) (m % 10) m k b (omega arith),
      )
      refl

text_leb-last :
    (d d' : ℕ) → d < 100 → d' < 100 → text_leb (padded 2 d "") (padded 2 d' "") ≡ leb d d'
unfolding text_leb
text_leb-last d d' h h' =
    text_leb-two d d' 1 0 0 "" "" h h' (omega arith) (omega arith) refl ∙ ground arith

padded-halves :
    (n : ℕ) (s : String) → n ≤ 9999 → padded 4 n s ≡ padded 2 (n / 100) (padded 2 (n % 100) s)
padded-halves n s h =
    rw
      (
        padded-four n s (omega arith),
        padded-two (n % 100) s (omega arith),
        padded-two (n / 100) _ (omega arith),
        hundreds,
        thousands,
        tens,
        ones,
      )
      refl
  where
    thousands : n / 100 / 10 % 10 ≡ n / 10 / 10 / 10 % 10
    thousands = omega arith

    hundreds : n / 100 % 10 ≡ n / 10 / 10 % 10
    hundreds = omega arith

    tens : n % 100 / 10 % 10 ≡ n / 10 % 10
    tens = omega arith

    ones : n % 100 % 10 ≡ n % 10
    ones = omega arith

-- The digits of a date as one number.
abbrev pub date_key : ℕ → ℕ → ℕ → ℕ
date_key y m d = y * 10000 + (m * 100 + d)

text_leb-format_civil :
    (y m d y' m' d' : ℕ)
    → y ≤ 9999
    → m < 100
    → d < 100
    → y' ≤ 9999
    → m' < 100
    → d' < 100
    → text_leb
        (format_civil (record { year = pos y; month = m; day = d }))
        (format_civil (record { year = pos y'; month = m'; day = d' }))
      ≡ leb (date_key y m d) (date_key y' m' d')
unfolding format_civil
text_leb-format_civil y m d y' m' d' hy hm hd hy' hm' hd' =
    rw
      (
        padded-halves y _ hy,
        padded-halves y' _ hy',
        text_leb-two (y / 100) (y' / 100) 1000000 (y % 100 * 10000 + (m * 100 + d))
            (y' % 100 * 10000 + (m' * 100 + d')) _ _ (omega arith) (omega arith) (omega arith)
            (omega arith) lower,
      )
      (ground arith)
  where
    days : text_leb ("-" ∷ padded 2 d "") ("-" ∷ padded 2 d' "") ≡ leb d d'
    days = rw text_leb-same (text_leb-last d d' hd hd')

    months :
        text_leb ("-" ∷ padded 2 m ("-" ∷ padded 2 d "")) ("-" ∷ padded 2 m' ("-" ∷ padded 2 d' ""))
        ≡ leb (m * 100 + d) (m' * 100 + d')
    months = rw text_leb-same (text_leb-two m m' 100 d d' _ _ hm hm' hd hd' days)

    lower :
        text_leb
          (padded 2 (y % 100) ("-" ∷ padded 2 m ("-" ∷ padded 2 d "")))
          (padded 2 (y' % 100) ("-" ∷ padded 2 m' ("-" ∷ padded 2 d' "")))
        ≡ leb (y % 100 * 10000 + (m * 100 + d)) (y' % 100 * 10000 + (m' * 100 + d'))
    lower =
        text_leb-two (y % 100) (y' % 100) 10000 _ _ _ _ (omega arith) (omega arith) (omega arith)
          (omega arith) months

year_of_era_mono : (a b : ℕ) → a ≤ b → b < days_per_era → year_of_era a ≤ year_of_era b
unfolding year_of_era
year_of_era_mono a b h k = omega arith

shifted_month_mono : (a b : ℕ) → a ≤ b → shifted_month a ≤ shifted_month b
unfolding shifted_month
shifted_month_mono a b h = omega arith

-- Days in a month that begins at the same day of the year keep their order.
day_of_month_mono :
    (a b : ℕ) → a < b → shifted_month a ≡ shifted_month b → day_of_month a < day_of_month b
unfolding day_of_month shifted_month
day_of_month_mono a b h e = omega arith

-- A later day of a year has a later month and day.
later_in_year :
    (y a b : ℕ)
    → a < b
    → b ≤ 365
    → date_key
        (y + from_bool (leb (month_of (shifted_month a)) 2))
        (month_of (shifted_month a))
        (day_of_month a)
      < date_key
          (y + from_bool (leb (month_of (shifted_month b)) 2))
          (month_of (shifted_month b))
          (day_of_month b)
unfolding month_of
later_in_year y a b h k = ground (
  arith,
  day_of_month_range a (omega arith),
  day_of_month_range b k,
  shifted_month_mono a b (omega arith),
  month_range b k,
  day_of_month_mono a b h,
)

later_year :
    (y y' a b : ℕ)
    → y < y'
    → a ≤ 365
    → b ≤ 365
    → date_key
        (y + from_bool (leb (month_of (shifted_month a)) 2))
        (month_of (shifted_month a))
        (day_of_month a)
      < date_key
          (y' + from_bool (leb (month_of (shifted_month b)) 2))
          (month_of (shifted_month b))
          (day_of_month b)
unfolding month_of
later_year y y' a b h k l =
    ground (arith, day_of_month_range a k, day_of_month_range b l, month_range a k, month_range b l)

later_day :
    (a b : ℕ)
    → a < b
    → b < days_per_era
    → year_of_era a ≡ year_of_era b
    → day_of_year a < day_of_year b
later_day a b h k e = omega (arith, year_start a (omega arith), year_start b k)

abbrev era_day : ℕ → ℕ
era_day z = z - z / days_per_era * days_per_era

-- The year, from March, of the `z`-th day.
abbrev shifted_year : ℕ → ℕ
shifted_year z = year_of_era (era_day z) + z / days_per_era * 400

era_day-lt : (z : ℕ) → era_day z < days_per_era
era_day-lt z = omega arith

same_era :
    (z z' : ℕ)
    → z < z'
    → shifted_year z' ≤ shifted_year z
    → (z / days_per_era ≡ z' / days_per_era) × (era_day z < era_day z')
same_era z z' h k =
    let same : z / days_per_era ≡ z' / days_per_era =
      omega (arith, year_of_era-lt (era_day z) (era_day-lt z)) in
    (same, omega (arith, same))

same_year :
    (z z' : ℕ)
    → z < z'
    → shifted_year z' ≤ shifted_year z
    → (shifted_year z ≡ shifted_year z') × (day_of_year (era_day z) < day_of_year (era_day z'))
same_year z z' h k =
    let era = same_era z z' h k in
    let years = year_of_era_mono (era_day z) (era_day z') (omega (arith, era.1)) (era_day-lt z') in
    (omega (arith, era.0, years), later_day _ _ era.1 (era_day-lt z') (omega (arith, era.0, years)))

abbrev key_of : Civil → ℕ
key_of c = date_key (pos_part c.year) c.month c.day

key_of_mono : (z z' : ℕ) → z < z' → key_of (civil_of z) < key_of (civil_of z')
key_of_mono z z' h = elim (Bool-cases (ltb (shifted_year z) (shifted_year z'))) [
  | inl later ↦
      later_year _ _ _ _ (ltb→lt _ _ later) (day_of_year-le _ (era_day-lt z))
        (day_of_year-le _ (era_day-lt z'))
  | inr same ↦
      (let years = same_year z z' h (ground arith) in
        rw years.0 (later_in_year (shifted_year z') _ _ years.1 (day_of_year-le _ (era_day-lt z'))))
]

leb-key_of : (z z' : ℕ) → leb (key_of (civil_of z)) (key_of (civil_of z')) ≡ leb z z'
leb-key_of z z' = ground (arith, key_of_mono z z', key_of_mono z' z, same)
  where
    same : z ≡ z' → key_of (civil_of z) ≡ key_of (civil_of z')
    same e = ap (λ n. key_of (civil_of n)) e

text_leb-civil_of :
    (z z' : ℕ)
    → z ≤ 3652364
    → z' ≤ 3652364
    → text_leb (format_civil (civil_of z)) (format_civil (civil_of z')) ≡ leb z z'
text_leb-civil_of z z' h h' =
    let month = month_of_range _ (day_of_year-le _ (era_day-lt z)) in
    let month' = month_of_range _ (day_of_year-le _ (era_day-lt z')) in
    let day = day_of_month_range _ (day_of_year-le _ (era_day-lt z)) in
    let day' = day_of_month_range _ (day_of_year-le _ (era_day-lt z')) in
    text_leb-format_civil _ _ _ _ _ _ (civil_year z h) (omega (arith, month.1))
      (omega (arith, day.1)) (civil_year z' h') (omega (arith, month'.1)) (omega (arith, day'.1))
    ∙ leb-key_of z z'

leb-day_index :
    (a b : ℤ) → IsFourDigit a → IsFourDigit b → leb (day_index a) (day_index b) ≡ leb_ℤ a b
leb-day_index a b h k =
    let first = day_index_lem a h in
    let second = day_index_lem b k in
    ground (
      arith,
      +ℤ_parts a (pos epoch_offset),
      +ℤ_parts b (pos epoch_offset),
      ap neg_part first.0,
      ap neg_part second.0,
    )

-- Days compare as their texts do, in the years of four digits.
pub text_leb-format_day :
    (a b : ℤ) → IsFourDigit a → IsFourDigit b → text_leb (format_day a) (format_day b) ≡ leb_ℤ a b
unfolding format_day
text_leb-format_day a b h k =
    let first = day_index_lem a h in
    let second = day_index_lem b k in
    rw (civil_from_days-pos a _ first.0, civil_from_days-pos b _ second.0)
      (text_leb-civil_of _ _ first.1 second.1 ∙ leb-day_index a b h k)
