-- ===== src/Usage/Days/Digits.antt =====
-- src/usage.rs: decimal digits printed and read.
use Prim.Native.Char.{code}
use Prim.Native.String.{◌∷◌}
use native.Mathlib.Nat.{pow-suc}
use rustspell_server.Base.{
  ℕ, zero, suc, ◌+◌, ◌-◌, ◌*◌, ◌/◌, ◌%◌, ◌^◌, ◌<◌, String, ◌≡◌, refl, some, ◌∙◌, ap, arith, false,
  ◌&&◌, Bool-cases, inl, inr, eqb,
}
use rustspell_server.Base.Int.{pos}
use rustspell_server.Base.Text.{digits_value, parse_uint}
use rustspell_server.Usage.Days.{nth_char, digit, padded, padded_from, parse_i64}

pub code-digit : (n : ℕ) → n < 10 → code (digit n) ≡ 48 + n
unfolding digit nth_char
code-digit zero h = refl
code-digit (suc zero) h = refl
code-digit (suc (suc zero)) h = refl
code-digit (suc (suc (suc zero))) h = refl
code-digit (suc (suc (suc (suc zero)))) h = refl
code-digit (suc (suc (suc (suc (suc zero))))) h = refl
code-digit (suc (suc (suc (suc (suc (suc zero)))))) h = refl
code-digit (suc (suc (suc (suc (suc (suc (suc zero))))))) h = refl
code-digit (suc (suc (suc (suc (suc (suc (suc (suc zero)))))))) h = refl
code-digit (suc (suc (suc (suc (suc (suc (suc (suc (suc zero))))))))) h = refl
code-digit (suc (suc (suc (suc (suc (suc (suc (suc (suc (suc n)))))))))) h = absurd (omega arith)

padded-step :
    (fuel width n : ℕ) (rest : String)
    → padded_from (suc fuel) (suc width) n rest
      ≡ padded_from fuel width (n / 10) (digit (n % 10) ∷ rest)
unfolding padded_from
padded-step fuel width n rest = ground arith

padded-stop : (fuel n : ℕ) (rest : String) → n ≡ 0 → padded_from (suc fuel) 0 n rest ≡ rest
unfolding padded_from
padded-stop fuel n rest e = rw e refl

pub padded-two :
    (n : ℕ) (rest : String)
    → n < 100
    → padded 2 n rest ≡ digit (n / 10 % 10) ∷ digit (n % 10) ∷ rest
padded-two n rest h = rw (padded-step 19 1, padded-step 18 0) (padded-stop 17 _ _ (omega arith))

pub padded-four :
    (n : ℕ) (rest : String)
    → n < 10000
    → padded 4 n rest
      ≡ digit (n / 10 / 10 / 10 % 10)
        ∷ digit (n / 10 / 10 % 10)
        ∷ digit (n / 10 % 10)
        ∷ digit (n % 10)
        ∷ rest
padded-four n rest h =
    rw (padded-step 19 3, padded-step 18 2, padded-step 17 1, padded-step 16 0)
      (padded-stop 15 _ _ (omega arith))

digits_value-digit :
    (acc n : ℕ) (s : String)
    → n < 10
    → digits_value acc (digit n ∷ s) ≡ digits_value (acc * 10 + n) s
unfolding digits_value
digits_value-digit acc n s h = ground (arith, code-digit n h)

-- A digit is no sign.
digit-no_sign : (n k : ℕ) → n < 10 → k < 48 → eqb (code (digit n)) k ≡ false
digit-no_sign n k h l = ground (arith, code-digit n h)

parse_i64-digit :
    (a n : ℕ) (s : String)
    → a < 10
    → digits_value a s ≡ some n
    → n < 2 ^ 63
    → parse_i64 (digit a ∷ s) ≡ some (pos n)
unfolding parse_i64 parse_uint
parse_i64-digit a n s h e fits =
    rw
      (
        digit-no_sign a 45 h (omega arith),
        digit-no_sign a 43 h (omega arith),
        digits_value-digit 0 a s h,
        zero_first,
        e,
      )
      (ground arith)
  where
    zero_first : 0 * 10 + a ≡ a
    zero_first = omega arith

digits_value-last : (acc n : ℕ) → n < 10 → digits_value acc (digit n ∷ "") ≡ some (acc * 10 + n)
unfolding digits_value
digits_value-last acc n h = digits_value-digit acc n "" h

pub parse_i64-two :
    (a b : ℕ) → a < 10 → b < 10 → parse_i64 (digit a ∷ digit b ∷ "") ≡ some (pos (a * 10 + b))
parse_i64-two a b h k = parse_i64-digit a _ _ h (digits_value-last a b k) (omega arith)

pub parse_i64-four :
    (a b c d : ℕ)
    → a < 10
    → b < 10
    → c < 10
    → d < 10
    → parse_i64 (digit a ∷ digit b ∷ digit c ∷ digit d ∷ "")
      ≡ some (pos (((a * 10 + b) * 10 + c) * 10 + d))
parse_i64-four a b c d h k l m =
    parse_i64-digit a _ _ h
      (rw
        (
          digits_value-digit a b (digit c ∷ digit d ∷ "") k,
          digits_value-digit (a * 10 + b) c (digit d ∷ "") l,
        )
        (digits_value-last _ d m))
      (omega arith)

fewer_digits : (n fuel : ℕ) → n < 10 ^ suc fuel → n / 10 < 10 ^ fuel
fewer_digits n fuel h = omega (arith, pow-suc 10 fuel)

-- The fuel of the printer is enough for every number of at most twenty digits: it reads back.
padded_from-digits_value :
    (fuel width n : ℕ) (rest : String)
    → n < 10 ^ fuel
    → digits_value 0 (padded_from fuel width n rest) ≡ digits_value n rest
unfolding padded_from
padded_from-digits_value zero width n rest h =
    let none_left : n ≡ 0 = omega arith in rw none_left refl
padded_from-digits_value (suc fuel) width n rest h =
    let shorter : n / 10 < 10 ^ fuel = fewer_digits n fuel h in
    let more =
      padded_from-digits_value fuel (width - 1) (n / 10) (digit (n % 10) ∷ rest) shorter
      ∙ digits_value-digit (n / 10) (n % 10) rest (omega arith) in
    let whole : n / 10 * 10 + n % 10 ≡ n = omega arith in
    elim (Bool-cases (eqb n 0 && eqb width 0)) [
      | inl over ↦ (let none_left : n ≡ 0 = ground arith in rw (over, none_left) refl)
      | inr going ↦ rw going (more ∙ ap (λ k. digits_value k rest) whole)
    ]

pub digits_value-padded : (width n : ℕ) → n < 10 ^ 20 → digits_value 0 (padded width n "") ≡ some n
unfolding digits_value
digits_value-padded width n h = padded_from-digits_value 20 width n "" h
