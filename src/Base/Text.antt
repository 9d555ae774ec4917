-- ===== src/Base/Text.antt =====
-- The operations of `str` that the program uses, on ASCII text: `split`, `split_once`, `trim` and the
-- `parse` of an unsigned number. White space is the space and the control characters 9 to 13.
use native.Mathlib.Omega.{arith}
use mathlib.Core.Path.{◌≡◌, refl}
use Prim.Native.Nat.{◌≤◌, ℕ, ◌+◌, ◌-◌, ◌*◌}
use Prim.Native.Char.{Char, code}
use Prim.Native.String.{String}
use mathlib.Core.Bool.{Bool, true, false, ◌&&◌, ◌||◌}
use mathlib.Core.Option.{Option, none, some}
use mathlib.Core.List.{List, [], ◌∷◌}
use rustspell_server.Base.Tests.{leb, eqb, if◌then◌else◌}

abbrev pub is_space : Char → Bool
is_space c = eqb (code c) 32 || (leb 9 (code c) && leb (code c) 13)

abbrev pub is_digit : Char → Bool
is_digit c = leb 48 (code c) && leb (code c) 57

-- The first piece grows by `c`.
abbrev pub cons_first : Char → List String → List String
cons_first c [] = String.◌∷◌ c String.[] ∷ []
cons_first c (s ∷ ss) = String.◌∷◌ c s ∷ ss

-- `chars().count()`
unfoldable pub char_count : String → ℕ
char_count String.[] = 0
char_count (String.◌∷◌ c s) = char_count s + 1

-- `starts_with(prefix)`
abbrev pub starts_with : String → String → Bool
starts_with String.[] s = true
starts_with (String.◌∷◌ c p) String.[] = false
starts_with (String.◌∷◌ c p) (String.◌∷◌ d s) = eqb (code c) (code d) && starts_with p s

-- `split(sep)`: always at least one piece.
unfoldable pub split : ℕ → String → List String
split sep String.[] = String.[] ∷ []
split sep (String.◌∷◌ c s) =
    if eqb (code c) sep then String.[] ∷ split sep s else cons_first c (split sep s)

abbrev cons_before : Char → Option (String × String) → Option (String × String)
cons_before c none = none
cons_before c (some (a, b)) = some (String.◌∷◌ c a, b)

unfoldable pub split_once : ℕ → String → Option (String × String)
split_once sep String.[] = none
split_once sep (String.◌∷◌ c s) =
    if eqb (code c) sep then some (String.[], s) else cons_before c (split_once sep s)

unfoldable pub trim_start : String → String
trim_start String.[] = String.[]
trim_start (String.◌∷◌ c s) = if is_space c then trim_start s else String.◌∷◌ c s

abbrev cons_trimmed : Char → String → String
cons_trimmed c String.[] = if is_space c then String.[] else String.◌∷◌ c String.[]
cons_trimmed c (String.◌∷◌ d s) = String.◌∷◌ c (String.◌∷◌ d s)

unfoldable pub trim_end : String → String
trim_end String.[] = String.[]
trim_end (String.◌∷◌ c s) = cons_trimmed c (trim_end s)

unfoldable pub trim : String → String
trim s = trim_end (trim_start s)

abbrev pub is_empty : String → Bool
is_empty String.[] = true
is_empty (String.◌∷◌ c s) = false

-- The value of the digits, after those that gave `acc`.
unfoldable pub digits_value : ℕ → String → Option ℕ
digits_value acc String.[] = some acc
digits_value acc (String.◌∷◌ c s) =
    let rest = digits_value (acc * 10 + (code c - 48)) s in if is_digit c then rest else none

abbrev at_most : ℕ → Option ℕ → Option ℕ
at_most bound none = none
at_most bound (some n) = if leb n bound then some n else none

abbrev unsigned : String → Option ℕ
unsigned String.[] = none
unsigned (String.◌∷◌ c s) = digits_value 0 (String.◌∷◌ c s)

abbrev strip_plus : String → String
strip_plus String.[] = String.[]
strip_plus (String.◌∷◌ c s) = if eqb (code c) 43 then s else String.◌∷◌ c s

-- `parse` into an unsigned type with the largest value `bound`: a leading `+` is allowed.
unfoldable pub parse_uint : ℕ → String → Option ℕ
unfolding digits_value
parse_uint bound s = at_most bound (unsigned (strip_plus s))

at_most-bound : (bound : ℕ) (o : Option ℕ) (n : ℕ) → at_most bound o ≡ some n → n ≤ bound
at_most-bound bound none n e = absurd (cc)
at_most-bound bound (some m) n e = ground arith

pub parse_uint-bound : (bound : ℕ) (s : String) (n : ℕ) → parse_uint bound s ≡ some n → n ≤ bound
unfolding parse_uint
parse_uint-bound bound s n e = at_most-bound bound _ n e

pub starts_with_trans :
    (p q s : String) → starts_with p q ≡ true → starts_with q s ≡ true → starts_with p s ≡ true
starts_with_trans String.[] q s h k = refl
starts_with_trans (String.◌∷◌ c p) String.[] s h k = absurd (cc)
starts_with_trans (String.◌∷◌ c p) (String.◌∷◌ d q) String.[] h k = absurd (cc)
starts_with_trans (String.◌∷◌ c p) (String.◌∷◌ d q) (String.◌∷◌ e s) h k =
    ground (arith, starts_with_trans p q s)
